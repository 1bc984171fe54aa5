-- ===== src/Row/NullBits.antt =====
-- row.go: setNullBit and the test of a null bit.
use Prim.Native.Nat.{bit_and, bit_or}
use fluss_go_client.Prelude.{
  ℕ, zero, suc, ◌+◌, ◌*◌, ◌/◌, ◌%◌, ◌^◌, ◌≤◌, ◌<◌, ◌≡◌, refl, ◌∙◌, Bool, true, false, not, ◌&&◌,
  ◌||◌, ltb, ◌==◌, if◌then◌else◌, arith, [], ◌∷◌, length, get_or, set, replicate, All, length-set,
  length-replicate,
}
use fluss_go_client.Bytes.{Bytes, IsByte}
use fluss_go_client.Row.Encode.{set_null_bit, null_bits_size}
use fluss_go_client.Row.Decode.{null_bit}

-- A test that is true at every number below a bound, found by running it.
checks : (ℕ → Bool) → ℕ → Bool
checks t zero = true
checks t (suc bound) = checks t bound && t bound

checks-lt : (t : ℕ → Bool) (bound i : ℕ) → i < bound → checks t bound ≡ true → t i ≡ true
unfolding checks
checks-lt t zero i below h = absurd (omega arith)
checks-lt t (suc bound) i below h = ground (arith, checks-lt t bound i)

abbrev same : Bool → Bool → Bool
same true b = b
same false b = not b

same→eq : (a b : Bool) → same a b ≡ true → a ≡ b
same→eq a b h = ground arith

abbrev test : ℕ → ℕ → Bool
test b j = not (bit_and b (2 ^ j) == 0)

abbrev entry : ℕ → ℕ → ℕ → Bool
entry b i j = same (test (bit_or b (2 ^ i)) j) ((i == j) || test b j)

or_at : ℕ → ℕ → Bool
or_at b i = checks (entry b i) 8

or_table : checks (λ b. checks (or_at b) 8) 256 ≡ true
unfolding checks or_at
or_table = refl

small_at : ℕ → ℕ → Bool
small_at b i = ltb (bit_or b (2 ^ i)) 256

small_table : checks (λ b. checks (small_at b) 8) 256 ≡ true
unfolding checks small_at
small_table = refl

test-bit_or :
    (b i j : ℕ) → b < 256 → i < 8 → j < 8 → test (bit_or b (2 ^ i)) j ≡ ((i == j) || test b j)
unfolding or_at
test-bit_or b i j hb hi hj =
    let row = checks-lt (λ b. checks (or_at b) 8) 256 b hb or_table in
    same→eq _ _ (checks-lt (entry b i) 8 j hj (checks-lt (or_at b) 8 i hi row))

bit_or-IsByte : (b i : ℕ) → b < 256 → i < 8 → bit_or b (2 ^ i) < 256
unfolding small_at
bit_or-IsByte b i hb hi =
    let row = checks-lt (λ b. checks (small_at b) 8) 256 b hb small_table in
    ground (arith, checks-lt (small_at b) 8 i hi row)

get_or-set :
    (bits : Bytes) (k l v : ℕ)
    → k < length bits
    → get_or (set bits k v) l 0 ≡ (if k == l then v else get_or bits l 0)
get_or-set [] k l v h = absurd (omega arith)
get_or-set (b ∷ bits) zero zero v h = refl
get_or-set (b ∷ bits) zero (suc l) v h = ground arith
get_or-set (b ∷ bits) (suc k) zero v h = ground arith
get_or-set (b ∷ bits) (suc k) (suc l) v h = get_or-set bits k l v (omega arith) ∙ ground arith

get_or-IsByte : (bits : Bytes) (k : ℕ) → All IsByte bits → get_or bits k 0 < 256
get_or-IsByte [] k h = omega arith
get_or-IsByte (b ∷ bits) zero h = h.0
get_or-IsByte (b ∷ bits) (suc k) h = get_or-IsByte bits k h.1

set-IsByte : (bits : Bytes) (k v : ℕ) → All IsByte bits → v < 256 → All IsByte (set bits k v)
set-IsByte [] k v h hv = tt
set-IsByte (b ∷ bits) zero v h hv = (hv, h.1)
set-IsByte (b ∷ bits) (suc k) v h hv = (h.0, set-IsByte bits k v h.1 hv)

pub set_null_bit-IsByte :
    (bits : Bytes) (i : ℕ) → All IsByte bits → All IsByte (set_null_bit bits i)
unfolding set_null_bit
set_null_bit-IsByte bits i h =
    set-IsByte bits (i / 8) _ h
      (bit_or-IsByte _ (i % 8) (get_or-IsByte bits (i / 8) h) (omega arith))

pub length-set_null_bit : (bits : Bytes) (i : ℕ) → length (set_null_bit bits i) ≡ length bits
unfolding set_null_bit
length-set_null_bit bits i = length-set bits (i / 8) _

-- Setting bit `i` sets bit `i` and no other.
pub null_bit-set_null_bit :
    (bits : Bytes) (i j : ℕ)
    → All IsByte bits
    → i < 8 * length bits
    → null_bit (set_null_bit bits i) j ≡ ((i == j) || null_bit bits j)
unfolding null_bit set_null_bit
null_bit-set_null_bit bits i j hb hi = ground (
  arith,
  get_or-set bits (i / 8) (j / 8) (bit_or (get_or bits (i / 8) 0) (2 ^ (i % 8))) (omega arith),
  test-bit_or (get_or bits (i / 8) 0) (i % 8) (j % 8) (get_or-IsByte bits (i / 8) hb),
)

abbrev pub zeros : ℕ → Bytes
zeros n = replicate n 0

get_or-replicate : (n k : ℕ) → get_or (zeros n) k 0 ≡ 0
get_or-replicate zero k = refl
get_or-replicate (suc n) zero = refl
get_or-replicate (suc n) (suc k) = get_or-replicate n k

zero_table : checks (λ j. not (test 0 j)) 8 ≡ true
unfolding checks
zero_table = refl

pub null_bit-replicate : (n j : ℕ) → null_bit (zeros n) j ≡ false
unfolding null_bit
null_bit-replicate n j =
    rw (get_or-replicate n (j / 8))
      (ground (arith, checks-lt (λ j. not (test 0 j)) 8 (j % 8) (omega arith) zero_table))

pub replicate-IsByte : (n : ℕ) → All IsByte (zeros n)
replicate-IsByte zero = tt
replicate-IsByte (suc n) = (omega arith, replicate-IsByte n)

-- There is a bit for each field.
pub null_bits_enough : (n : ℕ) → n ≤ 8 * length (zeros (null_bits_size n))
unfolding null_bits_size
null_bits_enough n = omega (arith, length-replicate {0} {A = ℕ} ((n + 7) / 8) 0)
