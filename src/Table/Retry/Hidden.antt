-- ===== src/Table/Retry/Hidden.antt =====
-- client/table.go: AppendLog when the failures of its second attempt could be retried once more.
use fluss_go_client.Prelude.{◌≡◌, refl, ap, ◌∙◌, true, Option, none, some, List, [], ◌∷◌, All}
use fluss_go_client.Prelude.Maps.{find, put}
use fluss_go_client.Bytes.Equal.{bytes_eq_refl}
use fluss_go_client.Writer.Options.{BucketRecordBatch, clone_bucket_record_batches}
use fluss_go_client.Table.Retry.{
  BucketWriteError, ProduceResult, WriteError, Server, Failures, Round,
  is_retryable_write_route_err, bucket_failure_key, split_loop, split_bucket_write_failures,
  filter_bucket_record_batches_by_failure, after_partial, after_once, round, attempts, append_log,
  merge_produce_results, sort_results,
}

abbrev pub AllRetryable : List BucketWriteError → Type 0
AllRetryable fs = All (λ f. is_retryable_write_route_err f.error ≡ true) fs

split_loop_terminal :
    (fs : List BucketWriteError) (m : Failures) (t : List BucketWriteError)
    → AllRetryable fs
    → (split_loop fs m t).1 ≡ t
unfolding split_loop
split_loop_terminal [] m t h = refl
split_loop_terminal (f ∷ fs) m t h = rw (h.0, split_loop) (split_loop_terminal fs _ t h.1)

split_no_terminal :
    (fs : List BucketWriteError) → AllRetryable fs → (split_bucket_write_failures fs).1 ≡ none
unfolding split_bucket_write_failures
split_no_terminal fs h = rw (split_loop_terminal fs [] [] h) refl

split_single :
    (f : BucketWriteError)
    → is_retryable_write_route_err f.error ≡ true
    → split_bucket_write_failures (f ∷ [])
      ≡ ((bucket_failure_key f.partition_id f.bucket_id, f) ∷ [], none)
unfolding split_bucket_write_failures split_loop put
split_single f h = rw (h, split_loop) refl

-- The first round retries the batch.
first_round :
    (server : Server) (b : BucketRecordBatch) (r : List ProduceResult) (f : BucketWriteError)
    → server.append_log_once 0 (b ∷ []) ≡ (r, some (WriteError.partial (f ∷ [])))
    → server.refresh_metadata 0 ≡ true
    → is_retryable_write_route_err f.error ≡ true
    → bucket_failure_key f.partition_id f.bucket_id ≡ bucket_failure_key b.partition_id b.bucket_id
    → round server 0 [] (b ∷ []) ≡ Round.again (merge_produce_results [] r) (b ∷ [])
unfolding round after_once after_partial filter_bucket_record_batches_by_failure find
first_round server b r f e refreshed retryable key = rw e (
    rw (split_single f retryable) (
      rw key
        (rw (bytes_eq_refl (bucket_failure_key b.partition_id b.bucket_id)) (rw refreshed refl))))

last_partial :
    (server : Server) (all : List ProduceResult) (pending : List BucketRecordBatch)
    (gs : List BucketWriteError) (split : Failures × Option WriteError)
    → after_partial server 1 all pending gs split ≡ Round.stop (sort_results all, split.1)
unfolding after_partial
last_partial server all pending gs ([], terminal) = refl
last_partial server all pending gs (x ∷ xs, terminal) = refl

second_round :
    (server : Server) (b : BucketRecordBatch) (all r : List ProduceResult)
    (gs : List BucketWriteError)
    → server.append_log_once 1 (b ∷ []) ≡ (r, some (WriteError.partial gs))
    → AllRetryable gs
    → (s : List ProduceResult) × (round server 1 all (b ∷ []) ≡ Round.stop (s, none))
unfolding round after_once
second_round server b all r gs e h = (
  sort_results (merge_produce_results all r),
  rw e (
      last_partial server (merge_produce_results all r) (b ∷ []) gs (split_bucket_write_failures gs)
      ∙ ap (λ t. Round.stop (sort_results (merge_produce_results all r), t))
          (split_no_terminal gs h)),
)

-- If the first attempt fails for the bucket of the one batch with a retryable error, the refresh
-- succeeds, and all failures of the second attempt are retryable again, AppendLog returns no error,
-- whatever the results say.
pub append_log_hides_failures :
    (server : Server) (b : BucketRecordBatch) (r r' : List ProduceResult) (f : BucketWriteError)
    (gs : List BucketWriteError)
    → server.append_log_once 0 (b ∷ []) ≡ (r, some (WriteError.partial (f ∷ [])))
    → server.refresh_metadata 0 ≡ true
    → is_retryable_write_route_err f.error ≡ true
    → bucket_failure_key f.partition_id f.bucket_id ≡ bucket_failure_key b.partition_id b.bucket_id
    → server.append_log_once 1 (b ∷ []) ≡ (r', some (WriteError.partial gs))
    → AllRetryable gs
    → (append_log server (b ∷ [])).1 ≡ none
unfolding append_log attempts clone_bucket_record_batches
append_log_hides_failures server b r r' f gs e refreshed retryable key e' h =
    let (s, last) = second_round server b (merge_produce_results [] r) r' gs e' h in
    rw (first_round server b r f e refreshed retryable key, attempts) (rw (last, attempts) refl)
