-- ===== src/Table/Upsert/Once.antt =====
-- client/table.go and client/parse.go: upsertKVOnce.
use fluss_go_client.Prelude.{Option, none, some, List, [], ◌∷◌, ◌++◌, map}
use fluss_go_client.Prelude.Int.{ℤ}
use fluss_go_client.Result.{Result, ok, err, panic}
use fluss_go_client.Bytes.{Bytes}
use fluss_go_client.Writer.Options.{BucketRecordBatch}
use fluss_go_client.Metadata.Cache.{TablePath, Cache}
use fluss_go_client.Client.{or_zero, or_empty}
use fluss_go_client.Table.Retry.{GoError, BucketWriteError, WriteError, terminal_error}
use fluss_go_client.Table.Send.{bucket_api_error, Groups, Net, on_ok}
use fluss_go_client.Table.Send.Routes.{ensure_table_info, group_batches_by_leader}
use fluss_go_client.Table.Upsert.{PutResult}

pub record PbPutKvReqForBucket : Type 0 where
  pub partition_id : Option ℤ
  pub bucket_id : ℤ
  pub records : Bytes

pub record PutKvRequest : Type 0 where
  pub acks : ℤ
  pub table_id : ℤ
  pub timeout_ms : ℤ
  pub target_columns : List ℤ
  pub agg_mode : Option ℤ
  pub buckets_req : List PbPutKvReqForBucket

pub record PbPutKvRespForBucket : Type 0 where
  pub partition_id : Option ℤ
  pub bucket_id : Option ℤ
  pub error_code : Option ℤ
  pub error_message : Option Bytes
  pub log_end_offset : Option ℤ

unfoldable pub build_put_bucket_record : BucketRecordBatch → PbPutKvReqForBucket
build_put_bucket_record b = record {
  partition_id = b.partition_id;
  bucket_id = b.bucket_id;
  records = b.records;
}

abbrev pub put_result : PbPutKvRespForBucket → PutResult
put_result item = record {
  partition_id = item.partition_id;
  bucket_id = or_zero item.bucket_id;
  log_end_offset = or_zero item.log_end_offset;
  error_code = item.error_code;
  error_message = item.error_message;
}

abbrev pub put_error : PutResult → Option GoError → List BucketWriteError
put_error r none = []
put_error r (some e) =
    record { partition_id = r.partition_id; bucket_id = r.bucket_id; error = e } ∷ []

-- `parsePutResults`: the results and the failures, both in order.
unfoldable pub parse_put_results :
    List PbPutKvRespForBucket → List PutResult × List BucketWriteError
parse_put_results [] = ([], [])
parse_put_results (item ∷ items) =
    let (results, failures) = parse_put_results items in
    let r = put_result item in
    (
      r ∷ results,
      put_error r (bucket_api_error (or_zero item.error_code) (or_empty item.error_message))
          ++ failures,
    )

-- What upsertKVOnce returns, where no remote call panics.
pub data PutOutcome : Type 0 where
  panics : PutOutcome
  returns : List PutResult → Option WriteError → PutOutcome

module _ {W : Type 0} (net : Net W) (endpoint : Bytes) (path : TablePath)
    (put_kv : W → Bytes → PutKvRequest → W × Result GoError (List PbPutKvRespForBucket)) where
  abbrev pub Put : Type 0
  Put = W × Result GoError (List PutResult × List BucketWriteError)

  -- The rounds behind an answer, over what the rest gives.
  abbrev pub with_put_answer : List PbPutKvRespForBucket → Put → Put
  with_put_answer items (w, panic) = (w, panic)
  with_put_answer items (w, err e) = (w, err e)
  with_put_answer items (w, ok (results, failures)) =
      let (out, failed) = parse_put_results items in (w, ok (out ++ results, failed ++ failures))

  abbrev pub put_request : ℤ → ℤ → ℤ → List ℤ → Option ℤ → List BucketRecordBatch → PutKvRequest
  put_request acks timeout_ms table_id target_columns agg_mode batches = record {
    acks = acks;
    table_id = table_id;
    timeout_ms = timeout_ms;
    target_columns = target_columns;
    agg_mode = agg_mode;
    buckets_req = map build_put_bucket_record batches;
  }

  -- The loop over the leaders: an error of a request ends it, and drops the results so far.
  unfoldable pub put_loop : (List BucketRecordBatch → PutKvRequest) → W → Groups → Put
  put_loop request w [] = (w, ok ([], []))
  put_loop request w ((addr, batches) ∷ groups) =
      let (w', answer) = put_kv w addr (request batches) in
      on_ok w' answer (λ items. with_put_answer items (put_loop request w' groups))

  abbrev pub report_put : Result GoError (List PutResult × List BucketWriteError) → PutOutcome
  report_put panic = PutOutcome.panics
  report_put (err e) = PutOutcome.returns [] (some (WriteError.whole e))
  report_put (ok (out, failures)) = PutOutcome.returns out (terminal_error failures)

  -- `upsertKVOnce`
  unfoldable pub upsert_kv_once :
      W × Cache → ℤ → ℤ → List ℤ → Option ℤ → List BucketRecordBatch → (W × Cache) × PutOutcome
  upsert_kv_once s acks timeout_ms target_columns agg_mode buckets =
      let (s1, found) = ensure_table_info net endpoint path s in
      let (s2, sent) = on_ok s1 found (λ info.
        let (s', groups) = group_batches_by_leader net endpoint path s1 info.id [] buckets in
        on_ok s' groups (λ grouped.
          let (w, answers) =
            put_loop (put_request acks timeout_ms info.id target_columns agg_mode) (s'.0)
              (net.walk grouped) in
          ((w, s'.1), answers))) in
      (s2, report_put sent)
