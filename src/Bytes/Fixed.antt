-- ===== src/Bytes/Fixed.antt =====
-- Fixed-width integers: lengths, ranges and round trips, for every width.
use native.Mathlib.Nat.{pow-suc}
use fluss_go_client.Prelude.{
  ℕ, zero, suc, ◌*◌, ◌/◌, ◌<◌, ◌^◌, ◌≡◌, refl, ap, arith, [], ◌∷◌, ◌++◌, length, take, drop, All,
  ◌∙◌,
}
use fluss_go_client.Bytes.{Bytes, IsByte, le_bytes, le_value, le_uint, be_bytes, be_uint}

pub length-le_bytes : (k v : ℕ) → length (le_bytes k v) ≡ k
unfolding le_bytes
length-le_bytes zero v = refl
length-le_bytes (suc k) v = ap suc (length-le_bytes k (v / 256))

pub length-be_bytes : (k v : ℕ) → length (be_bytes k v) ≡ k
unfolding be_bytes
length-be_bytes zero v = refl
length-be_bytes (suc k) v = ap suc (length-be_bytes k v)

pub le_bytes-IsByte : (k v : ℕ) → All IsByte (le_bytes k v)
unfolding le_bytes
le_bytes-IsByte zero v = tt
le_bytes-IsByte (suc k) v = (omega arith, le_bytes-IsByte k (v / 256))

pub be_bytes-IsByte : (k v : ℕ) → All IsByte (be_bytes k v)
unfolding be_bytes
be_bytes-IsByte zero v = tt
be_bytes-IsByte (suc k) v = (omega arith, be_bytes-IsByte k v)

pow_step : (k : ℕ) → 256 ^ suc k ≡ 256 * 256 ^ k
pow_step k = simp pow-suc (omega arith)

pub le_value-le_bytes : (k v : ℕ) → v < 256 ^ k → le_value (le_bytes k v) ≡ v
unfolding le_bytes le_value
le_value-le_bytes zero v h = omega arith
le_value-le_bytes (suc k) v h =
    omega (arith, pow_step k, le_value-le_bytes k (v / 256) (omega (arith, pow_step k)))

pub take_bytes : (k : ℕ) (xs ys : Bytes) → length xs ≡ k → take k (xs ++ ys) ≡ xs
take_bytes zero [] ys h = refl
take_bytes zero (x ∷ xs) ys h = absurd (omega arith)
take_bytes (suc k) [] ys h = absurd (omega arith)
take_bytes (suc k) (x ∷ xs) ys h = ap (λ l. x ∷ l) (take_bytes k xs ys (omega arith))

pub le_uint-le_bytes : (k v : ℕ) (rest : Bytes) → v < 256 ^ k → le_uint k (le_bytes k v ++ rest) ≡ v
unfolding le_uint
le_uint-le_bytes k v rest h =
    ap le_value (take_bytes k (le_bytes k v) rest (length-le_bytes k v)) ∙ le_value-le_bytes k v h

-- The client uses the big-endian order at widths 2 and 4 only.
pub be_uint-be_bytes_two :
    (v : ℕ) (rest : Bytes) → v < 2 ^ 16 → be_uint 2 (be_bytes 2 v ++ rest) ≡ v
unfolding be_uint be_bytes
be_uint-be_bytes_two v rest h = omega arith

pub be_uint-be_bytes_four :
    (v : ℕ) (rest : Bytes) → v < 2 ^ 32 → be_uint 4 (be_bytes 4 v ++ rest) ≡ v
unfolding be_uint be_bytes
be_uint-be_bytes_four v rest h = omega arith

pub drop_bytes : (k : ℕ) (xs ys : Bytes) → length xs ≡ k → drop k (xs ++ ys) ≡ ys
drop_bytes zero [] ys h = refl
drop_bytes zero (x ∷ xs) ys h = absurd (omega arith)
drop_bytes (suc k) [] ys h = absurd (omega arith)
drop_bytes (suc k) (x ∷ xs) ys h = drop_bytes k xs ys (omega arith)
