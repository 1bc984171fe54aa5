-- ===== src/Row/Number.antt =====
-- big.Int as the codec uses it: `Int64`, `Bytes` and `SetBytes`, and int64 as a number.
use fluss_go_client.Prelude.{
  ℕ, zero, suc, ◌+◌, ◌-◌, ◌/◌, ◌%◌, ◌^◌, ltb, ◌==◌, if◌then◌else◌, [], ◌∷◌,
}
use fluss_go_client.Prelude.Int.{ℤ, pos, negsuc, pos_part, neg_part}
use fluss_go_client.Bytes.{Bytes, be_value}

-- `Int64`: the low 64 bits, in two's complement.
unfoldable pub int64_of : ℤ → ℕ
int64_of (pos n) = n % 2 ^ 64
int64_of (negsuc n) = (2 ^ 64 - suc n % 2 ^ 64) % 2 ^ 64

-- `big.NewInt(int64(w))`
unfoldable pub of_int64 : ℕ → ℤ
of_int64 w = if ltb w (2 ^ 63) then pos w else negsuc (2 ^ 64 - w - 1)

-- The bytes of a magnitude, highest first and none for 0; `n` rounds are enough for `n`.
unfoldable pub magnitude_loop : ℕ → ℕ → Bytes → Bytes
magnitude_loop zero n out = out
magnitude_loop (suc fuel) n out =
    let more = magnitude_loop fuel (n / 256) ((n % 256) ∷ out) in if n == 0 then out else more

unfoldable pub magnitude : ℤ → ℕ
magnitude z = pos_part z + neg_part z

-- `Bytes`
unfoldable pub big_bytes : ℤ → Bytes
unfolding magnitude_loop magnitude
big_bytes z = magnitude_loop (magnitude z) (magnitude z) []

-- `SetBytes`
unfoldable pub set_bytes : Bytes → ℤ
unfolding be_value
set_bytes bs = pos (be_value 0 bs)
