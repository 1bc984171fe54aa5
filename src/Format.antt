-- ===== src/Format.antt =====
-- Go's `%d` of fmt, for any integer type, and what the keys made with it rest on.
pub mod Injective
use fluss_go_client.Prelude.{
  ℕ, zero, suc, ◌+◌, ◌*◌, ◌-◌, ◌/◌, ◌%◌, Bool, ltb, if◌then◌else◌, [], ◌∷◌, ◌++◌,
}
use fluss_go_client.Prelude.Int.{ℤ, pos, negsuc}
use fluss_go_client.Bytes.{Bytes}

-- The decimal digits in front of `out`; `n` rounds are enough for `n`.
unfoldable pub digits_loop : ℕ → ℕ → Bytes → Bytes
digits_loop zero n out = (48 + n % 10) ∷ out
digits_loop (suc fuel) n out =
    let more = digits_loop fuel (n / 10) ((48 + n % 10) ∷ out) in
    if ltb n 10 then (48 + n % 10) ∷ out else more

unfoldable pub format_d : ℤ → Bytes
format_d (pos n) = digits_loop n n []
format_d (negsuc n) = 45 ∷ digits_loop (suc n) (suc n) []

-- The number that decimal digits write, behind a number.
unfoldable pub value : ℕ → Bytes → ℕ
value n [] = n
value n (b ∷ bs) = value (n * 10 + (b - 48)) bs
