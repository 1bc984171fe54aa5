-- ===== src/Rows/Keys.antt =====
-- client/row.go: keyColumnsByName against the positions of names in a list.
use fluss_go_client.Prelude.{
  ℕ, zero, suc, ◌+◌, ◌<◌, ◌≡◌, ◌≢◌, refl, ap, sym, ◌∙◌, true, false, Bool-cases, ◌⊎◌, inl, inr,
  Option, none, some, List, [], ◌∷◌, get_elem?, arith,
}
use fluss_go_client.Result.{Result, ok, err, panic, ◌>>=◌}
use fluss_go_client.Bytes.{Bytes}
use fluss_go_client.Bytes.Equal.{bytes_eq, bytes_eq_sound, bytes_eq_refl}
use fluss_go_client.Rows.{Error, index_of, found_column, key_columns_by_name}

-- The first place of a name.
pub record IsFirst (columns : List Bytes) (name : Bytes) (i : ℕ) : Type 0 where
  pub there : get_elem? columns i ≡ some name
  pub before : (j : ℕ) → j < i → get_elem? columns j ≢ some name

abbrev pub IsMissing : List Bytes → Bytes → Type 0
IsMissing columns name = (j : ℕ) → get_elem? columns j ≢ some name

-- The columns of names, in their order.
abbrev pub AreFirst : List Bytes → List Bytes → List ℕ → Type 0
AreFirst columns [] [] = Unit {0}
AreFirst columns [] (i ∷ is) = ⊥
AreFirst columns (name ∷ names) [] = ⊥
AreFirst columns (name ∷ names) (i ∷ is) = IsFirst columns name i × AreFirst columns names is

-- The first of some names that is no column, behind names that are.
abbrev pub IsFirstMissing : List Bytes → List Bytes → Bytes → Type 0
IsFirstMissing columns [] x = ⊥
IsFirstMissing columns (name ∷ names) x =
    ((name ≡ x) × IsMissing columns x)
    ⊎ ((i : ℕ) × IsFirst columns name i × IsFirstMissing columns names x)

abbrev pub KeyColumns : List Bytes → List Bytes → Result Error (List ℕ) → Type 0
KeyColumns columns names (ok is) = AreFirst columns names is
KeyColumns columns names (err (Error.key_not_found x)) = IsFirstMissing columns names x
KeyColumns columns names r = ⊥

-- What the inner loop finds from place `i` on.
abbrev Found : ℕ → Bytes → List Bytes → Option ℕ → Type 0
Found i name columns none = IsMissing columns name
Found i name columns (some k) = (d : ℕ) × (k ≡ i + d) × IsFirst columns name d

some_injective : {a b : Bytes} → some a ≡ some b → a ≡ b
some_injective e = cc

other_first : (c name : Bytes) → bytes_eq c name ≡ false → some c ≢ some name
other_first c name h e =
    let same : bytes_eq c name ≡ true =
      ap (bytes_eq c) (sym (some_injective e)) ∙ bytes_eq_refl c in
    cc

later :
    (i : ℕ) (c name : Bytes) (cs : List Bytes) (o : Option ℕ)
    → bytes_eq c name ≡ false
    → Found (suc i) name cs o
    → Found i name (c ∷ cs) o
later i c name cs none h missing = still_missing
  where
    still_missing : (j : ℕ) → get_elem? (c ∷ cs) j ≢ some name
    still_missing zero = other_first c name h
    still_missing (suc j) = missing j
later i c name cs (some k) h (d, at_d, first) =
    (suc d, omega arith, record { there = first.there; before = λ j below. earlier j below })
  where
    earlier : (j : ℕ) → j < suc d → get_elem? (c ∷ cs) j ≢ some name
    earlier zero below = other_first c name h
    earlier (suc j) below = first.before j (omega arith)

index_of-Found :
    (i : ℕ) (name : Bytes) (columns : List Bytes) → Found i name columns (index_of i name columns)
unfolding index_of
index_of-Found i name [] = λ j e. cc
index_of-Found i name (c ∷ cs) = elim (Bool-cases (bytes_eq c name)) [
  | inl h ↦ rw h (
    0,
    omega arith,
    record { there = ap some (bytes_eq_sound c name h); before = λ j below. absurd (omega arith) },
  )
  | inr h ↦ rw h (later i c name cs (index_of (suc i) name cs) h (index_of-Found (suc i) name cs))
]

with_rest :
    (columns : List Bytes) (name : Bytes) (names : List Bytes) (i : ℕ)
    (rest : Result Error (List ℕ))
    → IsFirst columns name i
    → KeyColumns columns names rest
    → KeyColumns columns (name ∷ names) (rest >>= λ is. ok (i ∷ is))
with_rest columns name names i panic first h = h
with_rest columns name names i (ok is) first h = (first, h)
with_rest columns name names i (err (Error.key_not_found x)) first h = inr (i, first, h)
with_rest columns name names i (err _) first h = elim h [ ]

looked_up :
    (columns : List Bytes) (name : Bytes) (names : List Bytes) (o : Option ℕ)
    (rest : Result Error (List ℕ))
    → Found 0 name columns o
    → KeyColumns columns names rest
    → KeyColumns columns (name ∷ names) (found_column name o >>= λ i. rest >>= λ is. ok (i ∷ is))
looked_up columns name names none rest missing h = inl (refl, missing)
looked_up columns name names (some k) rest (d, at_d, first) h =
    let here : k ≡ d = omega arith in with_rest columns name names k rest (rw here first) h

-- keyColumnsByName gives for each key name, in order, the first column with that name, or names the
-- first key that is no column.
pub key_columns_by_name-KeyColumns :
    (columns names : List Bytes) → KeyColumns columns names (key_columns_by_name columns names)
unfolding key_columns_by_name
key_columns_by_name-KeyColumns columns [] = tt
key_columns_by_name-KeyColumns columns (name ∷ names) =
    looked_up columns name names (index_of 0 name columns) (key_columns_by_name columns names)
      (index_of-Found 0 name columns) (key_columns_by_name-KeyColumns columns names)
