-- ===== src/Bytes/Equal.antt =====
-- Equality of Go strings and byte slices, by content.
use fluss_go_client.Prelude.{
  ℕ, ◌≡◌, refl, Bool, true, false, ◌&&◌, and_parts, ◌==◌, ==_refl, arith, [], ◌∷◌,
}
use fluss_go_client.Bytes.{Bytes}

unfoldable pub bytes_eq : Bytes → Bytes → Bool
bytes_eq [] [] = true
bytes_eq [] (b ∷ bs) = false
bytes_eq (a ∷ as') [] = false
bytes_eq (a ∷ as') (b ∷ bs) = (a == b) && bytes_eq as' bs

pub bytes_eq_refl : (a : Bytes) → bytes_eq a a ≡ true
unfolding bytes_eq
bytes_eq_refl [] = refl
bytes_eq_refl (b ∷ bs) = rw (==_refl b) (bytes_eq_refl bs)

heads : (a b : ℕ) → (a == b) ≡ true → a ≡ b
heads a b h = ground arith

cons_eq : (a b : ℕ) (as' bs : Bytes) → a ≡ b → as' ≡ bs → ◌≡◌ {A = Bytes} (a ∷ as') (b ∷ bs)
cons_eq a b as' bs p q = cc

pub bytes_eq_sound : (a b : Bytes) → bytes_eq a b ≡ true → a ≡ b
unfolding bytes_eq
bytes_eq_sound [] [] h = refl
bytes_eq_sound [] (b ∷ bs) h = absurd (cc)
bytes_eq_sound (a ∷ as') [] h = absurd (cc)
bytes_eq_sound (a ∷ as') (b ∷ bs) h =
    let (p, q) = and_parts (a == b) (bytes_eq as' bs) h in
    cons_eq a b as' bs (heads a b p) (bytes_eq_sound as' bs q)
