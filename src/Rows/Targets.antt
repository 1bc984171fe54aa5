-- ===== src/Rows/Targets.antt =====
-- client/row.go: normalizeTargetColumns.
use fluss_go_client.Prelude.{
  ℕ, zero, suc, ◌==◌, ◌≡◌, ◌≢◌, refl, ap, sym, ◌∙◌, ◌⊎◌, inl, inr, true, false, Bool-cases, List,
  [], ◌∷◌, length, arith,
}
use fluss_go_client.Prelude.Int.{ℤ, pos, eq_ℤ, eq_ℤ_sound, eq_ℤ_refl}
use fluss_go_client.Rows.{count_up, normalize_target_columns}

-- The columns from `i` on, as many as given.
unfoldable pub columns_from : ℕ → ℕ → List ℤ
columns_from i zero = []
columns_from i (suc n) = pos i ∷ columns_from (suc i) n

-- No columns, or all of them in order.
abbrev pub AreAll : List ℤ → ℕ → Type 0
AreAll targets n = (targets ≡ []) ⊎ (targets ≡ columns_from 0 n)

count_up-columns_from :
    (i n : ℕ) (cs : List ℤ) → length cs ≡ n → count_up i cs ≡ true → cs ≡ columns_from i n
unfolding count_up columns_from
count_up-columns_from i zero [] e h = refl
count_up-columns_from i zero (c ∷ cs) e h = absurd (omega arith)
count_up-columns_from i (suc n) [] e h = absurd (omega arith)
count_up-columns_from i (suc n) (c ∷ cs) e h = elim (Bool-cases (eq_ℤ c (pos i))) [
  | inl t ↦
      let rest : count_up (suc i) cs ≡ true = rw t at h in
      rw (eq_ℤ_sound c (pos i) t)
        (ap (λ l. pos i ∷ l) (count_up-columns_from (suc i) n cs (omega arith) rest))
  | inr t ↦ let no : false ≡ true = rw t at h in absurd (cc)
]

columns_from-count_up : (i n : ℕ) → count_up i (columns_from i n) ≡ true
unfolding count_up columns_from
columns_from-count_up i zero = refl
columns_from-count_up i (suc n) = rw (eq_ℤ_refl (pos i)) (columns_from-count_up (suc i) n)

length-columns_from : (i n : ℕ) → length (columns_from i n) ≡ n
unfolding columns_from
length-columns_from i zero = refl
length-columns_from i (suc n) = ap suc (length-columns_from (suc i) n)

-- normalizeTargetColumns gives nil for no columns and for all of them in order, and any others as they
-- are.
pub normalize_target_columns_lem :
    (targets : List ℤ) (n : ℕ)
    → (AreAll targets n × (normalize_target_columns targets n ≡ []))
      ⊎ ((targets ≢ [])
          × (normalize_target_columns targets n ≡ targets)
          × (targets ≢ columns_from 0 n))
unfolding normalize_target_columns
normalize_target_columns_lem [] n = inl (inl refl, refl)
normalize_target_columns_lem (c ∷ cs) n = elim (Bool-cases (length (c ∷ cs) == n)) [
  | inr short ↦
      inr
        (λ e. cc, rw short refl, λ e. absurd (ground (arith, ap length e, length-columns_from 0 n)))
  | inl full ↦ elim (Bool-cases (count_up 0 (c ∷ cs))) [
    | inl up ↦
        inl (inr (count_up-columns_from 0 n (c ∷ cs) (ground arith) up), rw full (rw up refl))
    | inr other ↦ inr (
      λ e. cc,
      rw full (rw other refl),
      λ e.
          let no : true ≡ false = sym (ap (count_up 0) e ∙ columns_from-count_up 0 n) ∙ other in
          absurd (cc),
    )
  ]
]
