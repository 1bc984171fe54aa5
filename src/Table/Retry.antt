-- ===== src/Table/Retry.antt =====
-- client/table.go: the retries of AppendLog, and how it takes partial failures apart. `Server` is what
-- appendLogOnce and RefreshMetadata give at each attempt.
pub mod Hidden
use fluss_go_client.Prelude.{
  ℕ, zero, suc, ◌+◌, Bool, true, false, not, ◌&&◌, ◌||◌, ◌==◌, if◌then◌else◌, Option, none, some,
  List, [], ◌∷◌, ◌++◌, length, set,
}
use fluss_go_client.Prelude.Int.{ℤ, ltb_ℤ}
use fluss_go_client.Prelude.Maps.{find, put}
use fluss_go_client.Bytes.{Bytes}
use fluss_go_client.Bytes.Equal.{bytes_eq}
use fluss_go_client.Format.{format_d}
use fluss_go_client.Writer.Options.{BucketRecordBatch, clone_bucket_record_batches}

-- What the retries read of an error: whether it is ErrLeaderNotAvailable, and its text.
pub record GoError : Type 0 where
  pub leader_not_available : Bool
  pub text : Bytes

pub record BucketWriteError : Type 0 where
  pub partition_id : Option ℤ
  pub bucket_id : ℤ
  pub error : GoError

pub record ProduceResult : Type 0 where
  pub partition_id : Option ℤ
  pub bucket_id : ℤ
  pub base_offset : ℤ
  pub error_code : Option ℤ
  pub error_message : Option Bytes

-- A *PartialWriteError, or any other error.
pub data WriteError : Type 0 where
  partial : List BucketWriteError → WriteError
  whole : GoError → WriteError

unfoldable pub starts_with : Bytes → Bytes → Bool
starts_with s [] = true
starts_with [] (p ∷ ps) = false
starts_with (b ∷ s) (p ∷ ps) = (b == p) && starts_with s ps

-- strings.Contains
unfoldable pub contains : Bytes → Bytes → Bool
unfolding starts_with
contains [] p = starts_with [] p
contains (b ∷ s) p = starts_with (b ∷ s) p || contains s p

-- "fluss: no route for table="
abbrev pub no_route_text : Bytes
no_route_text =
    102 ∷ 108 ∷ 117 ∷ 115 ∷ 115 ∷ 58 ∷ 32 ∷ 110 ∷ 111 ∷ 32 ∷ 114 ∷ 111 ∷ 117 ∷ 116 ∷ 101 ∷ 32 ∷ 102
    ∷ 111 ∷ 114 ∷ 32 ∷ 116 ∷ 97 ∷ 98 ∷ 108 ∷ 101 ∷ 61 ∷ []

-- "fluss: leader "
abbrev pub leader_text : Bytes
leader_text = 102 ∷ 108 ∷ 117 ∷ 115 ∷ 115 ∷ 58 ∷ 32 ∷ 108 ∷ 101 ∷ 97 ∷ 100 ∷ 101 ∷ 114 ∷ 32 ∷ []

unfoldable pub is_retryable_write_route_err : GoError → Bool
is_retryable_write_route_err e =
    e.leader_not_available || (contains e.text no_route_text || contains e.text leader_text)

-- `nil/%d`, or `%d/%d`
unfoldable pub bucket_failure_key : Option ℤ → ℤ → Bytes
bucket_failure_key none bucket_id = 110 ∷ 105 ∷ 108 ∷ 47 ∷ format_d bucket_id
bucket_failure_key (some partition_id) bucket_id =
    format_d partition_id ++ (47 ∷ format_d bucket_id)

abbrev pub Failures : Type 0
Failures = List (Bytes × BucketWriteError)

-- The loop of `splitBucketWriteFailures`.
unfoldable pub split_loop :
    List BucketWriteError → Failures → List BucketWriteError → Failures × List BucketWriteError
split_loop [] retryable terminal = (retryable, terminal)
split_loop (f ∷ fs) retryable terminal = elim (is_retryable_write_route_err f.error) [
  | true ↦
      split_loop fs (put bytes_eq retryable (bucket_failure_key f.partition_id f.bucket_id) f)
        terminal
  | false ↦ split_loop fs retryable (terminal ++ (f ∷ []))
]

abbrev pub terminal_error : List BucketWriteError → Option WriteError
terminal_error [] = none
terminal_error (f ∷ fs) = some (WriteError.partial (f ∷ fs))

unfoldable pub split_bucket_write_failures : List BucketWriteError → Failures × Option WriteError
split_bucket_write_failures fs =
    let (retryable, terminal) = split_loop fs [] [] in (retryable, terminal_error terminal)

abbrev is_found : Option BucketWriteError → Bool
is_found none = false
is_found (some f) = true

unfoldable pub filter_bucket_record_batches_by_failure :
    List BucketRecordBatch → Failures → List BucketRecordBatch
filter_bucket_record_batches_by_failure [] failures = []
filter_bucket_record_batches_by_failure (b ∷ bs) failures =
    let rest = filter_bucket_record_batches_by_failure bs failures in
    if is_found (find bytes_eq failures (bucket_failure_key b.partition_id b.bucket_id))
    then b ∷ rest
    else rest

-- sort.Slice by bucket id; it does not say how it orders results of one bucket id.
unfoldable pub insert_result : ProduceResult → List ProduceResult → List ProduceResult
insert_result r [] = r ∷ []
insert_result r (x ∷ xs) =
    let rest = insert_result r xs in
    if ltb_ℤ x.bucket_id r.bucket_id then x ∷ rest else r ∷ (x ∷ xs)

unfoldable pub sort_results : List ProduceResult → List ProduceResult
unfolding insert_result
sort_results [] = []
sort_results (r ∷ rs) = insert_result r (sort_results rs)

-- The index of `mergeProduceResults`: the last position of each key.
unfoldable pub index_results : ℕ → List ProduceResult → List (Bytes × ℕ) → List (Bytes × ℕ)
index_results i [] index = index
index_results i (r ∷ rs) index =
    index_results (i + 1) rs (put bytes_eq index (bucket_failure_key r.partition_id r.bucket_id) i)

-- Its second loop.
unfoldable pub merge_loop :
    List ProduceResult → List (Bytes × ℕ) → List ProduceResult → List ProduceResult
merge_loop [] index out = out
merge_loop (r ∷ rs) index out =
    let key = bucket_failure_key r.partition_id r.bucket_id in
    elim (find bytes_eq index key) [
      | some i ↦ merge_loop rs index (set out i r)
      | none ↦ merge_loop rs (put bytes_eq index key (length out)) (out ++ (r ∷ []))
    ]

unfoldable pub merge_produce_results : List ProduceResult → List ProduceResult → List ProduceResult
unfolding index_results merge_loop
merge_produce_results existing current =
    sort_results (merge_loop current (index_results 0 existing []) existing)

-- At an attempt: the results and the error of appendLogOnce, and whether the refresh after it succeeds.
pub record Server : Type 0 where
  pub append_log_once : ℕ → List BucketRecordBatch → List ProduceResult × Option WriteError
  pub refresh_metadata : ℕ → Bool

abbrev pub Returned : Type 0
Returned = List ProduceResult × Option WriteError

-- How a round of the loop ends.
pub data Round : Type 0 where
  stop : Returned → Round
  again : List ProduceResult → List BucketRecordBatch → Round

abbrev pub is_none : Option WriteError → Bool
is_none none = true
is_none (some e) = false

abbrev pub is_empty : {A : Type 0} → List A → Bool
is_empty [] = true
is_empty (x ∷ xs) = false

-- A round whose error is a *PartialWriteError.
unfoldable pub after_partial :
    Server
    → ℕ
    → List ProduceResult
    → List BucketRecordBatch
    → List BucketWriteError
    → Failures × Option WriteError
    → Round
after_partial server attempt all pending failures (retryable, terminal) =
    let left = filter_bucket_record_batches_by_failure pending retryable in
    let done = Round.stop (sort_results all, terminal) in
    if is_empty retryable || (attempt == 1)
    then done
    else if not (server.refresh_metadata attempt)
    then done
    else if is_empty left
    then done
    else if not (is_none terminal) && not (length retryable == length failures)
    then done
    else Round.again all left

unfoldable pub after_once :
    Server → ℕ → List ProduceResult → List BucketRecordBatch → Option WriteError → Round
after_once server attempt all pending none = Round.stop (sort_results all, none)
after_once server attempt all pending (some (WriteError.whole e)) =
    if (attempt == 1) || not (is_retryable_write_route_err e)
    then Round.stop (all, some (WriteError.whole e))
    else if not (server.refresh_metadata attempt)
    then Round.stop (all, some (WriteError.whole e))
    else Round.again all pending
after_once server attempt all pending (some (WriteError.partial failures)) =
    after_partial server attempt all pending failures (split_bucket_write_failures failures)

unfoldable pub round : Server → ℕ → List ProduceResult → List BucketRecordBatch → Round
round server attempt all pending =
    let (results, e) = server.append_log_once attempt pending in
    after_once server attempt (merge_produce_results all results) pending e

-- The loop of AppendLog, with the attempts that are left.
unfoldable pub attempts : Server → ℕ → ℕ → List ProduceResult → List BucketRecordBatch → Returned
attempts server zero attempt all pending = (sort_results all, none)
attempts server (suc left) attempt all pending = elim (round server attempt all pending) [
  | Round.stop r ↦ r
  | Round.again all' pending' ↦ attempts server left (attempt + 1) all' pending'
]

unfoldable pub append_log : Server → List BucketRecordBatch → Returned
append_log server buckets = attempts server 2 0 [] (clone_bucket_record_batches buckets)
