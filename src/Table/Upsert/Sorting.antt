-- ===== src/Table/Upsert/Sorting.antt =====
-- client/table.go: sorting the results of writes by bucket id twice is sorting them once.
use fluss_go_client.Prelude.{◌≡◌, refl, true, false, Bool-cases, inl, inr, List, [], ◌∷◌, arith}
use fluss_go_client.Prelude.Int.{ℤ, ltb_ℤ}
use fluss_go_client.Table.Retry.{ProduceResult, insert_result, sort_results}

-- No result comes behind one of a greater bucket id.
abbrev pub AtMost : ProduceResult → List ProduceResult → Type 0
AtMost r [] = Unit {0}
AtMost r (x ∷ xs) = ltb_ℤ x.bucket_id r.bucket_id ≡ false

abbrev pub IsSorted : List ProduceResult → Type 0
IsSorted [] = Unit {0}
IsSorted (x ∷ xs) = AtMost x xs × IsSorted xs

not_both : (a b : ℤ) → ltb_ℤ a b ≡ true → ltb_ℤ b a ≡ false
not_both a b h = ground arith

head_of :
    (r x : ProduceResult) (xs : List ProduceResult)
    → ltb_ℤ x.bucket_id r.bucket_id ≡ true
    → AtMost x xs
    → AtMost x (insert_result r xs)
unfolding insert_result
head_of r x [] e h = not_both x.bucket_id r.bucket_id e
head_of r x (y ∷ ys) e h = elim (Bool-cases (ltb_ℤ y.bucket_id r.bucket_id)) [
  | inl t ↦ rw t h
  | inr t ↦ rw t (not_both x.bucket_id r.bucket_id e)
]

insert_result-IsSorted :
    (r : ProduceResult) (xs : List ProduceResult) → IsSorted xs → IsSorted (insert_result r xs)
unfolding insert_result
insert_result-IsSorted r [] h = (tt, tt)
insert_result-IsSorted r (x ∷ xs) h = elim (Bool-cases (ltb_ℤ x.bucket_id r.bucket_id)) [
  | inl t ↦ rw t (head_of r x xs t h.0, insert_result-IsSorted r xs h.1)
  | inr t ↦ rw t (t, h)
]

pub sort_results-IsSorted : (rs : List ProduceResult) → IsSorted (sort_results rs)
unfolding sort_results
sort_results-IsSorted [] = tt
sort_results-IsSorted (r ∷ rs) =
    insert_result-IsSorted r (sort_results rs) (sort_results-IsSorted rs)

at_front : (r : ProduceResult) (xs : List ProduceResult) → AtMost r xs → insert_result r xs ≡ r ∷ xs
unfolding insert_result
at_front r [] h = refl
at_front r (x ∷ xs) h = rw h refl

pub sort_results_fixed : (rs : List ProduceResult) → IsSorted rs → sort_results rs ≡ rs
unfolding sort_results
sort_results_fixed [] h = refl
sort_results_fixed (r ∷ rs) h = rw (sort_results_fixed rs h.1) (at_front r rs h.0)
