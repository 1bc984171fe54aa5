-- ===== src/Table/Upsert.antt =====
-- client/table.go: the retries of UpsertKV, which are written out apart from those of AppendLog.
-- `PutServer` is what upsertKVOnce and RefreshMetadata give at each attempt.
pub mod Once
pub mod Sorting
pub mod Like
mod Runs
use fluss_go_client.Prelude.{
  ℕ, zero, suc, ◌+◌, Bool, true, false, not, ◌&&◌, ◌||◌, ◌==◌, if◌then◌else◌, Option, none, some,
  List, [], ◌∷◌, ◌++◌, length, set,
}
use fluss_go_client.Prelude.Int.{ℤ, ltb_ℤ}
use fluss_go_client.Prelude.Maps.{find, put}
use fluss_go_client.Bytes.{Bytes}
use fluss_go_client.Bytes.Equal.{bytes_eq}
use fluss_go_client.Writer.Options.{BucketRecordBatch, clone_bucket_record_batches}
use fluss_go_client.Table.Retry.{
  BucketWriteError, WriteError, Failures, bucket_failure_key, is_retryable_write_route_err,
  split_bucket_write_failures, filter_bucket_record_batches_by_failure, is_none, is_empty,
}

pub record PutResult : Type 0 where
  pub partition_id : Option ℤ
  pub bucket_id : ℤ
  pub log_end_offset : ℤ
  pub error_code : Option ℤ
  pub error_message : Option Bytes

-- sort.Slice by bucket id; it does not say how it orders results of one bucket id.
unfoldable pub insert_put : PutResult → List PutResult → List PutResult
insert_put r [] = r ∷ []
insert_put r (x ∷ xs) =
    let rest = insert_put r xs in if ltb_ℤ x.bucket_id r.bucket_id then x ∷ rest else r ∷ (x ∷ xs)

unfoldable pub sort_puts : List PutResult → List PutResult
sort_puts [] = []
sort_puts (r ∷ rs) = insert_put r (sort_puts rs)

-- The index of `mergePutResults`: the last position of each key.
unfoldable pub index_puts : ℕ → List PutResult → List (Bytes × ℕ) → List (Bytes × ℕ)
index_puts i [] index = index
index_puts i (r ∷ rs) index =
    index_puts (i + 1) rs (put bytes_eq index (bucket_failure_key r.partition_id r.bucket_id) i)

-- Its second loop.
unfoldable pub merge_puts_loop : List PutResult → List (Bytes × ℕ) → List PutResult → List PutResult
merge_puts_loop [] index out = out
merge_puts_loop (r ∷ rs) index out =
    let key = bucket_failure_key r.partition_id r.bucket_id in
    elim (find bytes_eq index key) [
      | some i ↦ merge_puts_loop rs index (set out i r)
      | none ↦ merge_puts_loop rs (put bytes_eq index key (length out)) (out ++ (r ∷ []))
    ]

unfoldable pub merge_put_results : List PutResult → List PutResult → List PutResult
merge_put_results existing current =
    sort_puts (merge_puts_loop current (index_puts 0 existing []) existing)

pub record PutServer : Type 0 where
  pub upsert_kv_once : ℕ → List BucketRecordBatch → List PutResult × Option WriteError
  pub refresh_metadata : ℕ → Bool

abbrev pub PutReturned : Type 0
PutReturned = List PutResult × Option WriteError

-- How a round of the loop ends.
pub data PutRound : Type 0 where
  stop : PutReturned → PutRound
  again : List PutResult → List BucketRecordBatch → PutRound

-- A round whose error is a *PartialWriteError.
unfoldable pub after_partial_put :
    PutServer
    → ℕ
    → List PutResult
    → List BucketRecordBatch
    → List BucketWriteError
    → Failures × Option WriteError
    → PutRound
after_partial_put server attempt all pending failures (retryable, terminal) =
    let left = filter_bucket_record_batches_by_failure pending retryable in
    let done = PutRound.stop (sort_puts all, terminal) in
    if is_empty retryable || (attempt == 1)
    then done
    else if not (server.refresh_metadata attempt)
    then done
    else if is_empty left
    then done
    else if not (is_none terminal) && not (length retryable == length failures)
    then done
    else PutRound.again all left

-- Where there is no error, the results are returned as they are.
unfoldable pub after_put :
    PutServer → ℕ → List PutResult → List BucketRecordBatch → Option WriteError → PutRound
after_put server attempt all pending none = PutRound.stop (all, none)
after_put server attempt all pending (some (WriteError.whole e)) =
    if (attempt == 1) || not (is_retryable_write_route_err e)
    then PutRound.stop (all, some (WriteError.whole e))
    else if not (server.refresh_metadata attempt)
    then PutRound.stop (all, some (WriteError.whole e))
    else PutRound.again all pending
after_put server attempt all pending (some (WriteError.partial failures)) =
    after_partial_put server attempt all pending failures (split_bucket_write_failures failures)

unfoldable pub put_round : PutServer → ℕ → List PutResult → List BucketRecordBatch → PutRound
put_round server attempt all pending =
    let (results, e) = server.upsert_kv_once attempt pending in
    after_put server attempt (merge_put_results all results) pending e

-- The loop of UpsertKV, with the attempts that are left.
unfoldable pub put_attempts :
    PutServer → ℕ → ℕ → List PutResult → List BucketRecordBatch → PutReturned
put_attempts server zero attempt all pending = (all, none)
put_attempts server (suc left) attempt all pending = elim (put_round server attempt all pending) [
  | PutRound.stop r ↦ r
  | PutRound.again all' pending' ↦ put_attempts server left (attempt + 1) all' pending'
]

unfoldable pub upsert_kv : PutServer → List BucketRecordBatch → PutReturned
upsert_kv server buckets = put_attempts server 2 0 [] (clone_bucket_record_batches buckets)
