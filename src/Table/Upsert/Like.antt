-- ===== src/Table/Upsert/Like.antt =====
-- client/table.go: UpsertKV against AppendLog.
use fluss_go_client.Prelude.{
  ℕ, zero, suc, ◌+◌, ◌≡◌, refl, ap, sym, ◌∙◌, Bool, true, false, Bool-cases, ◌⊎◌, inl, inr,
  if◌then◌else◌, Option, none, some, List, [], ◌∷◌, ◌++◌, map, length, set, arith,
}
use fluss_go_client.Prelude.Int.{ltb_ℤ}
use fluss_go_client.Prelude.Maps.{find, put}
use fluss_go_client.Bytes.{Bytes}
use fluss_go_client.Bytes.Equal.{bytes_eq}
use fluss_go_client.Writer.Options.{BucketRecordBatch, clone_bucket_record_batches}
use fluss_go_client.Table.Retry.{
  BucketWriteError, ProduceResult, WriteError, Failures, Server, Round, Returned,
  bucket_failure_key, insert_result, sort_results, index_results, merge_loop, merge_produce_results,
  split_bucket_write_failures, after_partial, after_once, round, attempts, append_log,
}
use fluss_go_client.Table.Upsert.{
  PutResult, PutServer, PutReturned, PutRound, insert_put, sort_puts, index_puts, merge_puts_loop,
  merge_put_results, after_partial_put, after_put, put_round, put_attempts, upsert_kv,
}
use fluss_go_client.Table.Upsert.Sorting.{IsSorted, sort_results-IsSorted, sort_results_fixed}

-- The result of a put as one of an append, with the end offset for the base offset.
abbrev pub as_produce : PutResult → ProduceResult
as_produce r = record {
  partition_id = r.partition_id;
  bucket_id = r.bucket_id;
  base_offset = r.log_end_offset;
  error_code = r.error_code;
  error_message = r.error_message;
}

abbrev pub as_produced : List PutResult → List ProduceResult
as_produced rs = map as_produce rs

abbrev pub as_returned : PutReturned → Returned
as_returned (rs, e) = (as_produced rs, e)

abbrev pub like : PutServer → Server
like server = record {
  append_log_once = λ attempt pending. as_returned (server.upsert_kv_once attempt pending);
  refresh_metadata = server.refresh_metadata;
}

abbrev as_round : PutRound → Round
as_round (PutRound.stop r) = Round.stop (as_returned r)
as_round (PutRound.again all pending) = Round.again (as_produced all) pending

as_produced-insert_put :
    (r : PutResult) (xs : List PutResult)
    → as_produced (insert_put r xs) ≡ insert_result (as_produce r) (as_produced xs)
unfolding insert_put insert_result
as_produced-insert_put r [] = refl
as_produced-insert_put r (x ∷ xs) = elim (Bool-cases (ltb_ℤ x.bucket_id r.bucket_id)) [
  | inl t ↦ rw t (ap (λ l. as_produce x ∷ l) (as_produced-insert_put r xs))
  | inr t ↦ rw t refl
]

as_produced-sort_puts :
    (rs : List PutResult) → as_produced (sort_puts rs) ≡ sort_results (as_produced rs)
unfolding sort_puts sort_results
as_produced-sort_puts [] = refl
as_produced-sort_puts (r ∷ rs) =
    as_produced-insert_put r (sort_puts rs)
    ∙ ap (insert_result (as_produce r)) (as_produced-sort_puts rs)

same_index :
    (i : ℕ) (rs : List PutResult) (index : List (Bytes × ℕ))
    → index_puts i rs index ≡ index_results i (as_produced rs) index
unfolding index_puts index_results
same_index i [] index = refl
same_index i (r ∷ rs) index =
    same_index (i + 1) rs (put bytes_eq index (bucket_failure_key r.partition_id r.bucket_id) i)

length-as_produced : (rs : List PutResult) → length (as_produced rs) ≡ length rs
length-as_produced [] = refl
length-as_produced (r ∷ rs) = ap suc (length-as_produced rs)

as_produced-set :
    (rs : List PutResult) (i : ℕ) (r : PutResult)
    → as_produced (set rs i r) ≡ set (as_produced rs) i (as_produce r)
as_produced-set [] i r = refl
as_produced-set (x ∷ rs) zero r = refl
as_produced-set (x ∷ rs) (suc i) r = ap (λ l. as_produce x ∷ l) (as_produced-set rs i r)

as_produced-append :
    (xs ys : List PutResult) → as_produced (xs ++ ys) ≡ as_produced xs ++ as_produced ys
as_produced-append [] ys = refl
as_produced-append (x ∷ xs) ys = ap (λ l. as_produce x ∷ l) (as_produced-append xs ys)

Option-cases : {A : Type 0} (o : Option A) → (o ≡ none) ⊎ ((a : A) × (o ≡ some a))
Option-cases none = inl refl
Option-cases (some a) = inr (a, refl)

same_merge :
    (rs : List PutResult) (index : List (Bytes × ℕ)) (out : List PutResult)
    → as_produced (merge_puts_loop rs index out)
      ≡ merge_loop (as_produced rs) index (as_produced out)
unfolding merge_puts_loop merge_loop
same_merge [] index out = refl
same_merge (r ∷ rs) index out =
    let key = bucket_failure_key r.partition_id r.bucket_id in
    elim (Option-cases (find bytes_eq index key)) [
      | inr (i, e) ↦
          rw (e, merge_puts_loop, merge_loop)
            (same_merge rs index (set out i r)
              ∙ ap (merge_loop (as_produced rs) index) (as_produced-set out i r))
      | inl e ↦
          rw (e, merge_puts_loop, merge_loop)
            (same_merge rs (put bytes_eq index key (length out)) (out ++ (r ∷ []))
              ∙ rw (length-as_produced out) (
                  ap (merge_loop (as_produced rs) (put bytes_eq index key (length out)))
                    (as_produced-append out (r ∷ []))))
    ]

as_produced-merge_put_results :
    (existing current : List PutResult)
    → as_produced (merge_put_results existing current)
      ≡ merge_produce_results (as_produced existing) (as_produced current)
unfolding merge_put_results merge_produce_results
as_produced-merge_put_results existing current =
    as_produced-sort_puts (merge_puts_loop current (index_puts 0 existing []) existing)
    ∙ ap sort_results (
        same_merge current (index_puts 0 existing []) existing
        ∙ ap (λ m. merge_loop (as_produced current) m (as_produced existing))
            (same_index 0 existing []))

-- The results so far are sorted: those of a merge are.
abbrev AreSorted : List PutResult → Type 0
AreSorted all = IsSorted (as_produced all)

merge_put_results-AreSorted :
    (existing current : List PutResult) → AreSorted (merge_put_results existing current)
unfolding merge_put_results
merge_put_results-AreSorted existing current =
    let merged = merge_puts_loop current (index_puts 0 existing []) existing in
    rw (as_produced-sort_puts merged) (sort_results-IsSorted (as_produced merged))

module _ (server : PutServer) (attempt : ℕ) where
  same_partial :
      (all : List PutResult) (pending : List BucketRecordBatch) (failures : List BucketWriteError)
      (parts : Failures × Option WriteError)
      → as_round (after_partial_put server attempt all pending failures parts)
        ≡ after_partial (like server) attempt (as_produced all) pending failures parts
  unfolding after_partial_put after_partial
  same_partial all pending failures (retryable, terminal) =
      ground (arith, as_produced-sort_puts all)

  same_after :
      (all : List PutResult) (pending : List BucketRecordBatch) (e : Option WriteError)
      → AreSorted all
      → as_round (after_put server attempt all pending e)
        ≡ after_once (like server) attempt (as_produced all) pending e
  unfolding after_put after_once
  same_after all pending none h =
      ap (λ l. Round.stop (l, none)) (sym (sort_results_fixed (as_produced all) h))
  same_after all pending (some (WriteError.whole e)) h = ground arith
  same_after all pending (some (WriteError.partial failures)) h =
      same_partial all pending failures (split_bucket_write_failures failures)

  same_round :
      (all : List PutResult) (pending : List BucketRecordBatch)
      → as_round (put_round server attempt all pending)
        ≡ round (like server) attempt (as_produced all) pending
  unfolding put_round round
  same_round all pending =
      let answer = server.upsert_kv_once attempt pending in
      same_after (merge_put_results all (answer.0)) pending (answer.1)
        (merge_put_results-AreSorted all (answer.0))
      ∙ ap (λ l. after_once (like server) attempt l pending (answer.1))
          (as_produced-merge_put_results all (answer.0))

  data KeepsSorted : PutRound → Type 0 where
    ends : {r : PutReturned} → KeepsSorted (PutRound.stop r)
    goes_on :
        {all : List PutResult} {pending : List BucketRecordBatch}
        → AreSorted all
        → KeepsSorted (PutRound.again all pending)

  one_of-KeepsSorted :
      (b : Bool) {x y : PutRound} → KeepsSorted x → KeepsSorted y → KeepsSorted (if b then x else y)
  one_of-KeepsSorted true h k = h
  one_of-KeepsSorted false h k = k

  after_partial_put-KeepsSorted :
      (all : List PutResult) (pending : List BucketRecordBatch) (failures : List BucketWriteError)
      (parts : Failures × Option WriteError)
      → AreSorted all
      → KeepsSorted (after_partial_put server attempt all pending failures parts)
  unfolding after_partial_put
  after_partial_put-KeepsSorted all pending failures (retryable, terminal) h =
      search (one_of-KeepsSorted, ends, goes_on h)

  after_put-KeepsSorted :
      (all : List PutResult) (pending : List BucketRecordBatch) (e : Option WriteError)
      → AreSorted all
      → KeepsSorted (after_put server attempt all pending e)
  unfolding after_put
  after_put-KeepsSorted all pending none h = ends
  after_put-KeepsSorted all pending (some (WriteError.whole e)) h =
      search (one_of-KeepsSorted, ends, goes_on h)
  after_put-KeepsSorted all pending (some (WriteError.partial failures)) h =
      after_partial_put-KeepsSorted all pending failures (split_bucket_write_failures failures) h

  put_round-KeepsSorted :
      (all : List PutResult) (pending : List BucketRecordBatch)
      → KeepsSorted (put_round server attempt all pending)
  unfolding put_round
  put_round-KeepsSorted all pending =
      let answer = server.upsert_kv_once attempt pending in
      after_put-KeepsSorted (merge_put_results all (answer.0)) pending (answer.1)
        (merge_put_results-AreSorted all (answer.0))

-- How the rounds that are left go on, where those behind this one are alike.
same_end :
    (left : ℕ) (server : PutServer) (attempt : ℕ) (r : PutRound)
    → KeepsSorted server attempt r
    → ((all : List PutResult) (pending : List BucketRecordBatch)
        → AreSorted all
        → as_returned (put_attempts server left (attempt + 1) all pending)
          ≡ attempts (like server) left (attempt + 1) (as_produced all) pending)
    → as_returned (elim r [
      | PutRound.stop x ↦ x
      | PutRound.again all' pending' ↦ put_attempts server left (attempt + 1) all' pending'
    ])
      ≡ elim (as_round r) [
        | Round.stop x ↦ x
        | Round.again all' pending' ↦ attempts (like server) left (attempt + 1) all' pending'
      ]
same_end left server attempt _ ends behind = refl
same_end left server attempt _ (goes_on {all} {pending} h) behind = behind all pending h

same_attempts :
    (left : ℕ) (server : PutServer) (attempt : ℕ) (all : List PutResult)
    (pending : List BucketRecordBatch)
    → AreSorted all
    → as_returned (put_attempts server left attempt all pending)
      ≡ attempts (like server) left attempt (as_produced all) pending
unfolding put_attempts attempts
same_attempts zero server attempt all pending h =
    ap (λ l. (l, none)) (sym (sort_results_fixed (as_produced all) h))
same_attempts (suc left) server attempt all pending h =
    rw (sym (same_round server attempt all pending), attempts)
      (same_end left server attempt (put_round server attempt all pending)
        (put_round-KeepsSorted server attempt all pending)
        (λ all' pending'. same_attempts left server (attempt + 1) all' pending'))

-- UpsertKV returns what AppendLog would over the same attempts and refreshes, results and error alike,
-- where the end offset of a result stands for the base offset.
pub upsert_kv-append_log :
    (server : PutServer) (buckets : List BucketRecordBatch)
    → as_returned (upsert_kv server buckets) ≡ append_log (like server) buckets
unfolding upsert_kv append_log
upsert_kv-append_log server buckets =
    same_attempts 2 server 0 [] (clone_bucket_record_batches buckets) tt
