-- ===== src/Table/Upsert/Runs.antt =====
-- UpsertKV at a server that fails once for a stale leader.
use fluss_go_client.Prelude.{◌≡◌, ◌==◌, if◌then◌else◌, true, none, some, [], ◌∷◌}
use fluss_go_client.Prelude.Int.{pos}
use fluss_go_client.Writer.Options.{BucketRecordBatch}
use fluss_go_client.Table.Retry.{WriteError, append_log}
use fluss_go_client.Table.Sample.{lost_leader}
use fluss_go_client.Table.Upsert.{PutResult, PutServer, upsert_kv}
use fluss_go_client.Table.Upsert.Like.{as_returned, like, upsert_kv-append_log}

abbrev result : PutResult
result = record {
  partition_id = none;
  bucket_id = pos 1;
  log_end_offset = pos 7;
  error_code = none;
  error_message = none;
}

abbrev failing_once : PutServer
failing_once = record {
  upsert_kv_once = λ attempt pending.
      if attempt == 0 then ([], some (WriteError.whole lost_leader)) else (result ∷ [], none);
  refresh_metadata = λ attempt. true;
}

abbrev batch : BucketRecordBatch
batch = record { partition_id = none; bucket_id = pos 1; records = 1 ∷ [] }

upsert_kv-append_log_example :
    as_returned (upsert_kv failing_once (batch ∷ [])) ≡ append_log (like failing_once) (batch ∷ [])
upsert_kv-append_log_example = upsert_kv-append_log failing_once (batch ∷ [])
