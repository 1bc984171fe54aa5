-- ===== src/Snapshot/Plans.antt =====
-- reader.go: lookupPlan keeps what it has loaded, and ReadAll with it.
use fluss_go_client.Prelude.{
  ℕ, ltb, ◌==◌, ==_refl, ◌≡◌, refl, ap, sym, ◌∙◌, Bool, true, Bool-cases, inl, inr, Option, none,
  some, List, [], ◌∷◌, length, arith,
}
use fluss_go_client.Prelude.Maps.{find, put, find-put}
use fluss_go_client.Result.{Result, ok, err, panic, ◌>>=◌, ◌>>◌, reject}
use fluss_go_client.Bytes.{Bytes, le_uint}
use fluss_go_client.Row.Value.{Items}
use fluss_go_client.Snapshot.{
  DecodePlan, Error, Plans, same_id, Reader, load, keep_loaded, lookup_found, read_on, lookup_plan,
  decode_found, decode_value, read_all,
}

-- A reference: every value with the plans that the reader was opened with.
unfoldable pub read_each :
    {E : Type 0} → Reader E → Plans → Bool → List Bytes → Result (Error E) (List Items)
read_each r plans failed [] = reject failed Error.iteration >> ok []
read_each r plans failed (value ∷ values) = do
  items ← (decode_value r plans value).1
  rows ← read_each r plans failed values
  ok (items ∷ rows)

same_id_sound : (a b : ℕ) → same_id a b ≡ true → a ≡ b
same_id_sound a b h = ground (arith, h)

module _ {E : Type 0} (r : Reader E) where
  -- Plans that no lookup tells from others.
  abbrev Agree : Plans → Plans → Type 0
  Agree a b = (id : ℕ) → (lookup_plan r a id).1 ≡ (lookup_plan r b id).1

  -- What a lookup returns depends on the plan that it finds only.
  kept :
      (a b : Plans) (id : ℕ) (m : Result E DecodePlan)
      → (keep_loaded a id m).1 ≡ (keep_loaded b id m).1
  kept a b id panic = refl
  kept a b id (err e) = refl
  kept a b id (ok plan) = refl

  loaded :
      (l : Option (ℕ → Result E DecodePlan)) (a b : Plans) (id : ℕ)
      → (load l a id).1 ≡ (load l b id).1
  loaded none a b id = refl
  loaded (some l) a b id = kept a b id (l id)

  same_found :
      (a b : Plans) (id : ℕ) (o : Option DecodePlan)
      → (lookup_found r a id o).1 ≡ (lookup_found r b id o).1
  same_found a b id none = loaded r.load_plan a b id
  same_found a b id (some plan) = refl

  put-Agree :
      (plans : Plans) (id : ℕ) (plan : DecodePlan)
      → (lookup_plan r plans id).1 ≡ ok (some plan)
      → Agree (put same_id plans id plan) plans
  unfolding lookup_plan
  put-Agree plans id plan h j =
      let after = put same_id plans id plan in
      ap (λ o. (lookup_found r after j o).1)
        (find-put same_id same_id_sound ==_refl plans id plan j)
      ∙ elim (Bool-cases (id == j)) [
        | inl e ↦ rw e (rw (sym (same_id_sound id j e)) (sym h))
        | inr e ↦ rw e (same_found after plans j (find same_id plans j))
      ]

  kept-Agree :
      (plans : Plans) (id : ℕ) (m : Result E DecodePlan)
      → (lookup_plan r plans id).1 ≡ (keep_loaded plans id m).1
      → Agree (keep_loaded plans id m).0 plans
  kept-Agree plans id panic h j = refl
  kept-Agree plans id (err e) h j = refl
  kept-Agree plans id (ok plan) h j = put-Agree plans id plan h j

  loaded-Agree :
      (l : Option (ℕ → Result E DecodePlan)) (plans : Plans) (id : ℕ)
      → (lookup_plan r plans id).1 ≡ (load l plans id).1
      → Agree (load l plans id).0 plans
  loaded-Agree none plans id h j = refl
  loaded-Agree (some l) plans id h j = kept-Agree plans id (l id) h j

  found-Agree :
      (plans : Plans) (id : ℕ) (o : Option DecodePlan)
      → (lookup_plan r plans id).1 ≡ (lookup_found r plans id o).1
      → Agree (lookup_found r plans id o).0 plans
  found-Agree plans id none h j = loaded-Agree r.load_plan plans id h j
  found-Agree plans id (some plan) h j = refl

  lookup_plan-Agree : (plans : Plans) (id : ℕ) → Agree (lookup_plan r plans id).0 plans
  lookup_plan-Agree plans id =
      unfold lookup_plan in
      found-Agree plans id (find same_id plans id) (unfold lookup_plan in refl)

  decode_value-Agree :
      (a b : Plans) (value : Bytes)
      → Agree a b
      → Agree (decode_value r a value).0 b
        × ((decode_value r a value).1 ≡ (decode_value r b value).1)
  unfolding decode_value
  decode_value-Agree a b value h = elim (Bool-cases (ltb (length value) 2)) [
    | inl e ↦ rw (e, decode_value) (h, refl)
    | inr e ↦
        rw (e, decode_value)
          (
            (λ id. lookup_plan-Agree a (le_uint 2 value) id ∙ h id),
            ap (λ found. decode_found r.indexed (le_uint 2 value) found value)
                (h (le_uint 2 value)),
          )
  ]

  rows_of_round :
      (plans : Plans) (row : Result (Error E) Items) (rest : Plans × Result (Error E) (List Items))
      → (read_on plans row rest).1 ≡ (row >>= λ items. rest.1 >>= λ rows. ok (items ∷ rows))
  rows_of_round plans panic rest = refl
  rows_of_round plans (err e) rest = refl
  rows_of_round plans (ok items) rest = refl

  same_rows :
      (a b : Plans) (failed : Bool) (values : List Bytes)
      → Agree a b
      → (read_all r a failed values).1 ≡ read_each r b failed values
  unfolding read_all read_each
  same_rows a b failed [] h = refl
  same_rows a b failed (value ∷ values) h =
      let (agree, same) = decode_value-Agree a b value h in
      let plans = (decode_value r a value).0 in
      rows_of_round plans (decode_value r a value).1 (read_all r plans failed values)
      ∙ rw same (rw (same_rows plans b failed values agree) refl)

-- ReadAll returns what decoding each value with the plans that the reader was opened with returns,
-- rows or the first error: the plans that lookupPlan keeps change no result, if loadPlan gives one
-- result for one id.
pub read_all-read_each :
    {E : Type 0} (r : Reader E) (plans : Plans) (failed : Bool) (values : List Bytes)
    → (read_all r plans failed values).1 ≡ read_each r plans failed values
read_all-read_each r plans failed values = same_rows r plans plans failed values (λ id. refl)
