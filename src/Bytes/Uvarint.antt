-- ===== src/Bytes/Uvarint.antt =====
-- encoding/binary: PutUvarint and Uvarint together.
use native.Mathlib.Numerals.{towards_suc}
use native.Mathlib.Nat.{div-add-mod}
use fluss_go_client.Prelude.{
  ℕ, zero, suc, ◌+◌, ◌*◌, ◌/◌, ◌%◌, ◌<◌, ◌≤◌, ◌^◌, ◌≡◌, ap, arith, ◌∷◌, ◌++◌, length, some,
}
use fluss_go_client.Bytes.{Bytes, uvarint_bytes, put_uvarint, uvarint_loop, uvarint}

pub length-uvarint_bytes :
    (k v : ℕ) → (1 ≤ length (uvarint_bytes k v)) × (length (uvarint_bytes k v) ≤ k + 1)
unfolding uvarint_bytes
length-uvarint_bytes zero v = omega arith
length-uvarint_bytes (suc k) v = ground (arith, length-uvarint_bytes k (v / 128))

shift_step : (s : ℕ) → 2 ^ (s + 7) ≡ 128 * 2 ^ s
shift_step s = simp towards_suc (omega arith)

split_group : (v s : ℕ) → v * 2 ^ s ≡ v % 128 * 2 ^ s + v / 128 * 2 ^ (s + 7)
split_group v s = omega (
  arith,
  ap (λ (t : ℕ). t * 2 ^ s) (div-add-mod v 128),
  ap (λ (t : ℕ). v / 128 * t) (shift_step s),
)

-- In the tenth byte the shift is 63, and 64 bits leave room for one bit.
tenth_byte : (v i x s : ℕ) → s ≡ 7 * i → i ≡ 9 → x + v * 2 ^ s < 2 ^ 64 → v ≤ 1
tenth_byte v i x s hs hi h =
    let e : s ≡ 63 = omega arith in let h' : x + v * 2 ^ 63 < 2 ^ 64 = rw e at h in omega arith

-- A last byte, and a byte with the top bit set over the group `g`.
last_byte :
    (v i x s : ℕ) (rest : Bytes)
    → v < 128
    → i ≤ 9
    → s ≡ 7 * i
    → x + v * 2 ^ s < 2 ^ 64
    → uvarint_loop (v ∷ rest) i x s ≡ some (x + v * 2 ^ s, i + 1)
unfolding uvarint_loop
last_byte v i x s rest hv hi hs h = ground (arith, tenth_byte v i x s hs)

inner_byte :
    (g i x s : ℕ) (rest : Bytes)
    → g < 128
    → i ≤ 9
    → x + g * 2 ^ s < 2 ^ 64
    → uvarint_loop ((g + 128) ∷ rest) i x s ≡ uvarint_loop rest (i + 1) (x + g * 2 ^ s) (s + 7)
unfolding uvarint_loop
inner_byte g i x s rest hg hi h = ground arith

-- `v` is what is still to be read, and it counts from bit `s` on.
uvarint_loop-uvarint_bytes :
    (k v i x s : ℕ) (rest : Bytes)
    → v < 128 ^ suc k
    → i + k ≤ 9
    → s ≡ 7 * i
    → x + v * 2 ^ s < 2 ^ 64
    → uvarint_loop (uvarint_bytes k v ++ rest) i x s
      ≡ some (x + v * 2 ^ s, i + length (uvarint_bytes k v))
unfolding uvarint_bytes
uvarint_loop-uvarint_bytes zero v i x s rest hv hi hs h =
    let e : v % 256 ≡ v = omega arith in
    rw e (last_byte v i x s rest (omega arith) (omega arith) hs h)
uvarint_loop-uvarint_bytes (suc k) v i x s rest hv hi hs h = ground (
  arith,
  last_byte v i x s rest,
  split_group v s,
  inner_byte (v % 128) i x s (uvarint_bytes k (v / 128) ++ rest),
  uvarint_loop-uvarint_bytes k (v / 128) (i + 1) (x + v % 128 * 2 ^ s) (s + 7) rest (omega arith),
)

-- A 64-bit number is read back, with the count of its bytes.
pub uvarint-put_uvarint :
    (v : ℕ) (rest : Bytes)
    → v < 2 ^ 64
    → uvarint (put_uvarint v ++ rest) ≡ some (v, length (put_uvarint v))
unfolding uvarint put_uvarint
uvarint-put_uvarint v rest h = ground (arith, uvarint_loop-uvarint_bytes 9 v 0 0 0 rest)
