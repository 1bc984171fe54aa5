-- ===== src/Table/Send/Once.antt =====
-- client/table.go: appendLogOnce.
use fluss_go_client.Prelude.{Option, some, List, [], ◌∷◌, ◌++◌}
use fluss_go_client.Prelude.Int.{ℤ}
use fluss_go_client.Result.{Result, ok, err, panic}
use fluss_go_client.Bytes.{Bytes}
use fluss_go_client.Writer.Options.{BucketRecordBatch}
use fluss_go_client.Metadata.Cache.{TablePath, TableInfo, Cache}
use fluss_go_client.Table.Retry.{
  GoError, BucketWriteError, ProduceResult, WriteError, terminal_error, sort_results,
}
use fluss_go_client.Table.Send.{
  on_ok, Groups, Net, PbProduceLogRespForBucket, parse_produce_results,
}
use fluss_go_client.Table.Send.Routes.{ensure_table_info, group_batches_by_leader}

-- What appendLogOnce returns, where no remote call panics.
pub data Outcome : Type 0 where
  panics : Outcome
  returns : List ProduceResult → Option WriteError → Outcome

module _ {W : Type 0} (net : Net W) (endpoint : Bytes) (path : TablePath) where
  abbrev State : Type 0
  State = W × Cache

  abbrev pub Sent : Type 0
  Sent = W × Result GoError (List ProduceResult × List BucketWriteError)

  -- The rounds behind an answer, over what the rest gives.
  abbrev pub with_answer : List PbProduceLogRespForBucket → Sent → Sent
  with_answer items (w, panic) = (w, panic)
  with_answer items (w, err e) = (w, err e)
  with_answer items (w, ok (results, failures)) =
      let (out, failed) = parse_produce_results items in
      (w, ok (out ++ results, failed ++ failures))

  -- The loop over the leaders: an error of a request ends it, and drops the results so far.
  unfoldable pub send_loop : W → ℤ → ℤ → ℤ → Groups → Sent
  send_loop w acks timeout_ms table_id [] = (w, ok ([], []))
  send_loop w acks timeout_ms table_id ((addr, batches) ∷ groups) =
      let (w', answer) = net.produce_log w addr (record {
        acks = acks;
        table_id = table_id;
        timeout_ms = timeout_ms;
        buckets_req = batches;
      }) in
      on_ok w' answer (λ items. with_answer items (send_loop w' acks timeout_ms table_id groups))

  -- The end of `appendLogOnce`.
  abbrev pub report : Result GoError (List ProduceResult × List BucketWriteError) → Outcome
  report panic = Outcome.panics
  report (err e) = Outcome.returns [] (some (WriteError.whole e))
  report (ok (out, failures)) = Outcome.returns (sort_results out) (terminal_error failures)

  abbrev pub send_groups :
      State
      → ℤ
      → ℤ
      → ℤ
      → Result GoError Groups
      → State × Result GoError (List ProduceResult × List BucketWriteError)
  send_groups s acks timeout_ms table_id panic = (s, panic)
  send_groups s acks timeout_ms table_id (err e) = (s, err e)
  send_groups (w, c) acks timeout_ms table_id (ok grouped) =
      let (w', sent) = send_loop w acks timeout_ms table_id (net.walk grouped) in ((w', c), sent)

  abbrev pub send_batches :
      State
      → ℤ
      → ℤ
      → Result GoError TableInfo
      → List BucketRecordBatch
      → State × Result GoError (List ProduceResult × List BucketWriteError)
  send_batches s acks timeout_ms panic buckets = (s, panic)
  send_batches s acks timeout_ms (err e) buckets = (s, err e)
  send_batches s acks timeout_ms (ok info) buckets =
      let (s', grouped) = group_batches_by_leader net endpoint path s info.id [] buckets in
      send_groups s' acks timeout_ms info.id grouped

  -- `appendLogOnce`
  unfoldable pub append_log_once : State → ℤ → ℤ → List BucketRecordBatch → State × Outcome
  append_log_once s acks timeout_ms buckets =
      let (s1, info) = ensure_table_info net endpoint path s in
      let (s2, sent) = send_batches s1 acks timeout_ms info buckets in (s2, report sent)
