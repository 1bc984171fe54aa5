-- ===== src/Prelude/Maps.antt =====
-- Go maps as association lists with one entry for a key, over a test that compares keys.
use fluss_go_client.Prelude.{
  ◌≡◌, refl, ap, sym, ◌∙◌, Bool, true, false, if◌then◌else◌, Bool-cases, Option, none, some, arith,
  List, [], ◌∷◌, inl, inr,
}

module _ {K V : Type 0} (same : K → K → Bool) where
  -- `v, ok := m[k]`
  unfoldable pub find : List (K × V) → K → Option V
  find [] k = none
  find ((j, v) ∷ m) k = let rest = find m k in if same j k then some v else rest

  -- `m[k] = v`
  unfoldable pub put : List (K × V) → K → V → List (K × V)
  put [] k v = (k, v) ∷ []
  put ((j, w) ∷ m) k v = let rest = put m k v in if same j k then (j, v) ∷ m else (j, w) ∷ rest

-- Every value stands under its own key.
abbrev pub Keyed : {K V : Type 0} → (K → K → Bool) → (V → K) → List (K × V) → Type 0
Keyed {K} {V} same key m = (k : K) (v : V) → find same m k ≡ some v → key v ≡ k

module _ {K : Type 0} (same : K → K → Bool) (sound : (a b : K) → same a b ≡ true → a ≡ b)
    (same_refl : (a : K) → same a a ≡ true) where
  same_first : (i k j : K) → same i k ≡ true → same i j ≡ same k j
  same_first i k j e = ap (λ x. same x j) (sound i k e)

  other_key : (i k j : K) → same i k ≡ false → same i j ≡ true → same k j ≡ false
  other_key i k j e e' = elim (Bool-cases (same k j)) [
    | inl h ↦
        absurd (ground (arith, ap (λ x. same i x) (sound i j e'), ap (λ x. same i x) (sound k j h)))
    | inr h ↦ h
  ]

  -- A lookup behind a write: the value at the key written, and as before at any other.
  pub find-put :
      {V : Type 0} (m : List (K × V)) (k : K) (v : V) (j : K)
      → find same (put same m k v) j ≡ (if same k j then some v else find same m j)
  unfolding find put
  find-put [] k v j = refl
  find-put ((i, w) ∷ m) k v j = elim (Bool-cases (same i k)) [
    | inl e ↦ rw e (ground (arith, same_first i k j e))
    | inr e ↦ elim (Bool-cases (same i j)) [
      | inl e' ↦ rw e (rw e' (rw (other_key i k j e e') refl))
      | inr e' ↦ rw e (rw e' (find-put m k v j))
    ]
  ]

  pub put-Keyed :
      {V : Type 0} (key : V → K) (m : List (K × V)) (v : V)
      → Keyed same key m
      → Keyed same key (put same m (key v) v)
  put-Keyed key m v h k w e = elim (Bool-cases (same (key v) k)) [
    | inl t ↦
        let found : some v ≡ some w = sym (find-put m (key v) v k ∙ rw t refl) ∙ e in
        let here : v ≡ w = cc in ap key (sym here) ∙ sound (key v) k t
    | inr t ↦ h k w (sym (find-put m (key v) v k ∙ rw t refl) ∙ e)
  ]
