-- ===== src/Format/Injective.antt =====
-- fmt's %d: reading its digits back.
use fluss_go_client.Prelude.{
  ℕ, zero, suc, ◌+◌, ◌-◌, ◌/◌, ◌%◌, ◌≤◌, ◌<◌, ◌≡◌, refl, sym, ap, ◌∙◌, Bool, true, false, ltb, ◌==◌,
  if◌then◌else◌, arith, [], ◌∷◌, length, All,
}
use fluss_go_client.Prelude.Int.{ℤ, pos, negsuc}
use fluss_go_client.Bytes.{Bytes}
use fluss_go_client.Format.{digits_loop, format_d, value}

pub value-digits_loop :
    (fuel n : ℕ) (out : Bytes) → n ≤ fuel → value 0 (digits_loop fuel n out) ≡ value n out
unfolding value digits_loop
value-digits_loop zero n out h = ground arith
value-digits_loop (suc fuel) n out h =
    ground (arith, value-digits_loop fuel (n / 10) ((48 + n % 10) ∷ out))

abbrev pub IsDigits : Bytes → Type 0
IsDigits bs = All (λ b. (48 ≤ b) × (b < 58)) bs

if-IsDigits : (t : Bool) (a b : Bytes) → IsDigits a → IsDigits b → IsDigits (if t then a else b)
if-IsDigits true a b p q = p
if-IsDigits false a b p q = q

pub digits_loop-IsDigits :
    (fuel n : ℕ) (out : Bytes) → IsDigits out → IsDigits (digits_loop fuel n out)
unfolding digits_loop
digits_loop-IsDigits zero n out h = ((omega arith, omega arith), h)
digits_loop-IsDigits (suc fuel) n out h =
    let d : IsDigits ((48 + n % 10) ∷ out) = ((omega arith, omega arith), h) in
    if-IsDigits (ltb n 10) _ _ d (digits_loop-IsDigits fuel (n / 10) ((48 + n % 10) ∷ out) d)

-- A number is read back from its digits and its sign; a lone sign is no number.
signed : Bytes → ℤ
unfolding value
signed [] = pos 0
signed (b ∷ bs) = if b == 45 then negsuc (value 0 bs - 1) else pos (value 0 (b ∷ bs))

signed_digits : (bs : Bytes) (n : ℕ) → IsDigits bs → value 0 bs ≡ n → signed bs ≡ pos n
unfolding signed value
signed_digits [] n d e = ap pos e
signed_digits (b ∷ bs) n d e = ground (arith, d.0)

signed-format_d : (z : ℤ) → signed (format_d z) ≡ z
unfolding format_d
signed-format_d (pos n) =
    signed_digits (digits_loop n n []) n (digits_loop-IsDigits n n [] tt)
      (value-digits_loop n n [] (omega arith) ∙ unfold value in refl)
signed-format_d (negsuc n) =
    let v : value 0 (digits_loop (suc n) (suc n) []) ≡ suc n =
      value-digits_loop (suc n) (suc n) [] (omega arith) ∙ unfold value in refl in
    unfold signed in rw v (ap negsuc (omega arith))

pub format_d_injective : (a b : ℤ) → format_d a ≡ format_d b → a ≡ b
format_d_injective a b e = sym (signed-format_d a) ∙ ap signed e ∙ signed-format_d b

-- No slash and no lone sign.
abbrev pub HasNoSlash : Bytes → Type 0
HasNoSlash bs = All (λ b. (b == 47) ≡ false) bs

digits-HasNoSlash : (bs : Bytes) → IsDigits bs → HasNoSlash bs
digits-HasNoSlash [] d = tt
digits-HasNoSlash (b ∷ bs) d = (ground (arith, d.0), digits-HasNoSlash bs d.1)

pub format_d-HasNoSlash : (z : ℤ) → HasNoSlash (format_d z)
unfolding format_d
format_d-HasNoSlash (pos n) = digits-HasNoSlash _ (digits_loop-IsDigits n n [] tt)
format_d-HasNoSlash (negsuc n) =
    (refl, digits-HasNoSlash _ (digits_loop-IsDigits (suc n) (suc n) [] tt))

sign_no_digits : (bs : Bytes) → IsDigits bs → bs ≡ 45 ∷ [] → ⊥
sign_no_digits [] d e = cc
sign_no_digits (b ∷ bs) d e = let h : b ≡ 45 = cc in omega (arith, h, d.0.0)

value-zero : value 0 [] ≡ 0
unfolding value
value-zero = refl

value-suc : (n : ℕ) → value (suc n) [] ≡ suc n
unfolding value
value-suc n = refl

-- A lone sign is not printed.
pub format_d_no_sign : (z : ℤ) → format_d z ≡ 45 ∷ [] → ⊥
unfolding format_d
format_d_no_sign (pos n) e = sign_no_digits _ (digits_loop-IsDigits n n [] tt) e
format_d_no_sign (negsuc n) e =
    let h : digits_loop (suc n) (suc n) [] ≡ [] = cc in
    omega (
      arith,
      ap (value 0) h,
      value-digits_loop (suc n) (suc n) [] (omega arith),
      value-zero,
      value-suc n,
    )

pub length-digits_loop : (fuel n : ℕ) (out : Bytes) → length out < length (digits_loop fuel n out)
unfolding digits_loop
length-digits_loop zero n out = omega arith
length-digits_loop (suc fuel) n out =
    ground (arith, length-digits_loop fuel (n / 10) ((48 + n % 10) ∷ out))
