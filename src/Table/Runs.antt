-- ===== src/Table/Runs.antt =====
-- The retries of AppendLog at a concrete server.
use fluss_go_client.Prelude.{◌≡◌, refl, true, none, some, [], ◌∷◌}
use fluss_go_client.Prelude.Int.{pos}
use fluss_go_client.Writer.Options.{BucketRecordBatch}
use fluss_go_client.Table.Retry.{
  BucketWriteError, WriteError, Server, contains, leader_text, starts_with,
  is_retryable_write_route_err, append_log,
}
use fluss_go_client.Table.Retry.Hidden.{append_log_hides_failures}

abbrev parcel : BucketRecordBatch
parcel = record { partition_id = none; bucket_id = pos 3; records = 1 ∷ [] }

abbrev no_leader : BucketWriteError
no_leader = record {
  partition_id = none;
  bucket_id = pos 3;
  error = record { leader_not_available = true; text = [] };
}

-- The bucket has no leader at either attempt.
abbrev leaderless : Server
leaderless = record {
  append_log_once = λ attempt batches. ([], some (WriteError.partial (no_leader ∷ [])));
  refresh_metadata = λ attempt. true;
}

leader_text_found : contains (120 ∷ leader_text) leader_text ≡ true
unfolding contains starts_with
leader_text_found = refl

no_leader_retryable : is_retryable_write_route_err no_leader.error ≡ true
unfolding is_retryable_write_route_err
no_leader_retryable = refl

append_log_hides_failures_example : (append_log leaderless (parcel ∷ [])).1 ≡ none
append_log_hides_failures_example =
    append_log_hides_failures leaderless parcel [] [] no_leader (no_leader ∷ []) refl refl
      no_leader_retryable refl refl (no_leader_retryable, tt)
