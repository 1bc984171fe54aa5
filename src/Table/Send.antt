-- ===== src/Table/Send.antt =====
-- client/table.go and client/parse.go: appendLogOnce, which groups batches by the leaders of their
-- buckets and sends one request to each. The remote calls and the order of a walk over a Go map are a
-- parameter (`Net`) over a state of its own.
pub mod Routes
pub mod Once
pub mod Known
pub mod Groups
pub mod Failing
pub mod Errors
mod Runs
use fluss_go_client.Prelude.{
  Bool, true, false, Option, none, some, List, [], ◌∷◌, ◌++◌, if◌then◌else◌,
}
use fluss_go_client.Prelude.Int.{ℤ, pos, eq_ℤ, negsuc}
use fluss_go_client.Prelude.Maps.{find, put}
use fluss_go_client.Result.{Result, ok, err, panic, ◌>>=◌, map_error}
use fluss_go_client.Bytes.{Bytes}
use fluss_go_client.Bytes.Equal.{bytes_eq}
use fluss_go_client.Text.{codes}
use fluss_go_client.Format.{format_d}
use fluss_go_client.Writer.Options.{BucketRecordBatch}
use fluss_go_client.Metadata.Cache.{TablePath, ServerNode, Cache, address, table}
use fluss_go_client.Client
use fluss_go_client.Client.{MetadataResponse, or_zero, or_empty, ingest_metadata, route_for}
use fluss_go_client.Protocol.{ApiError, is_leader_not_available, unwrap, error}
use fluss_go_client.Table.Retry.{GoError, BucketWriteError, ProduceResult, WriteError, sort_results}

-- The answer for a bucket.
pub record PbProduceLogRespForBucket : Type 0 where
  pub bucket_id : Option ℤ
  pub partition_id : Option ℤ
  pub base_offset : Option ℤ
  pub error_code : Option ℤ
  pub error_message : Option Bytes

pub record ProduceLogRequest : Type 0 where
  pub acks : ℤ
  pub table_id : ℤ
  pub timeout_ms : ℤ
  pub buckets_req : List BucketRecordBatch

-- A map from addresses to what goes there.
abbrev pub GroupsOf : Type 0 → Type 0
GroupsOf A = List (Bytes × List A)

abbrev pub Groups : Type 0
Groups = GroupsOf BucketRecordBatch

abbrev pub group_of : {A : Type 0} → Option (List A) → List A
group_of none = []
group_of (some xs) = xs

-- `grouped[addr] = append(grouped[addr], item)`
unfoldable pub add_to_group : {A : Type 0} → GroupsOf A → Bytes → A → GroupsOf A
add_to_group grouped addr b =
    put bytes_eq grouped addr (group_of (find bytes_eq grouped addr) ++ (b ∷ []))

pub record GetTableInfoResponse : Type 0 where
  pub table_id : Option ℤ
  pub schema_id : Option ℤ
  pub table_json : Option Bytes
  pub created_time : Option ℤ
  pub modified_time : Option ℤ

-- Invoke for the requests that are sent here, GetTableInfo, and the order in which a map is walked.
pub record Net (W : Type 0) : Type 0 where
  pub get_metadata : W → Bytes → List TablePath → W × Result GoError MetadataResponse
  pub produce_log :
      W → Bytes → ProduceLogRequest → W × Result GoError (List PbProduceLogRespForBucket)
  pub get_table_info : W → Bytes → TablePath → W × Result GoError GetTableInfoResponse
  pub walk : Groups → Groups

-- An `*APIError` as the retries read it: errors.Is unwraps it.
unfoldable pub api_error : ℤ → Bytes → GoError
api_error code message =
    let e : ApiError = record { code = code; message = message } in
    record { leader_not_available = is_leader_not_available (unwrap e); text = error e }

unfoldable pub bucket_api_error : ℤ → Bytes → Option GoError
bucket_api_error code message = if eq_ℤ code (pos 0) then none else some (api_error code message)

abbrev pub produce_result : PbProduceLogRespForBucket → ProduceResult
produce_result item = record {
  partition_id = item.partition_id;
  bucket_id = or_zero item.bucket_id;
  base_offset = or_zero item.base_offset;
  error_code = item.error_code;
  error_message = item.error_message;
}

abbrev pub write_error : ProduceResult → Option GoError → List BucketWriteError
write_error r none = []
write_error r (some e) =
    record { partition_id = r.partition_id; bucket_id = r.bucket_id; error = e } ∷ []

-- `parseProduceResults`: the results and the failures, both in order.
unfoldable pub parse_produce_results :
    List PbProduceLogRespForBucket → List ProduceResult × List BucketWriteError
parse_produce_results [] = ([], [])
parse_produce_results (item ∷ items) =
    let (results, failures) = parse_produce_results items in
    let r = produce_result item in
    (
      r ∷ results,
      write_error r (bucket_api_error (or_zero item.error_code) (or_empty item.error_message))
          ++ failures,
    )

-- The texts of the errors of `routeFor` in client.go; the others end a refresh only, and their texts are
-- not read.
unfoldable pub route_error : Client.Error → GoError
route_error (Client.Error.no_route table_id bucket_id) = record {
  leader_not_available = false;
  text =
      codes "fluss: no route for table="
      ++ (format_d table_id ++ (codes " bucket=" ++ format_d bucket_id));
}
route_error (Client.Error.leader_not_found id) = record {
  leader_not_available = false;
  text = codes "fluss: leader " ++ (format_d id ++ codes " not found");
}
route_error e = record {
  leader_not_available = false;
  text = codes "leader missing or nil table path";
}

-- `if err != nil { return ..., err }` in a state.
abbrev pub on_ok : {E S A B : Type 0} → S → Result E A → (A → S × Result E B) → S × Result E B
on_ok s panic next = (s, panic)
on_ok s (err e) next = (s, err e)
on_ok s (ok a) next = next a
