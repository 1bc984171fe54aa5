-- ===== src/Metadata/Schema/Steps.antt =====
-- schema_descriptor.go: the steps of fieldTypeParser on any input.
use fluss_go_client.Prelude.{
  ℕ, zero, suc, ◌+◌, ◌^◌, ltb, ◌≤◌, ◌<◌, ◌≡◌, refl, Bool, true, false, not, ◌==◌, if◌then◌else◌,
  arith, List, [], ◌∷◌, length,
}
use fluss_go_client.Result.{Result, ok, err, panic, ◌>>=◌, ◌>>◌, reject}
use fluss_go_client.Bytes.{Bytes}
use fluss_go_client.Text.{is_digit, skip_spaces, span}
use fluss_go_client.Format.{value}
use fluss_go_client.Metadata.Schema.Parser.{
  Error, peek, expect, expect_byte, first_arg, two_args, atoi, parse_int, int_args_loop,
  parse_int_args, skip_size, parse_precision,
}

-- A value with a property, or an error.
abbrev pub Fine : {A : Type 0} → (A → Type 0) → Result Error A → Type 0
Fine P panic = ⊥
Fine P (err e) = Unit
Fine P (ok x) = P x

pub Fine-bind :
    {A B : Type 0} {P : A → Type 0} (Q : B → Type 0) (m : Result Error A)
    (next : A → Result Error B)
    → Fine P m
    → ((x : A) → P x → Fine Q (next x))
    → Fine Q (m >>= next)
Fine-bind Q panic next h k = absurd h
Fine-bind Q (err e) next h k = tt
Fine-bind Q (ok x) next h k = k x h

pub Fine-reject :
    {B : Type 0} (Q : B → Type 0) (t : Bool) (e : Error) (next : Result Error B)
    → (t ≡ false → Fine Q next)
    → Fine Q (reject t e >> next)
Fine-reject Q true e next k = tt
Fine-reject Q false e next k = k refl

pub Fine-test :
    {B : Type 0} (Q : B → Type 0) (t : Bool) (one other : Result Error B)
    → Fine Q one
    → Fine Q other
    → Fine Q (elim t [ true ↦ one | false ↦ other ])
Fine-test Q true one other h k = h
Fine-test Q false one other h k = k

Fine-if :
    {B : Type 0} (Q : B → Type 0) (t : Bool) (one other : Result Error B)
    → Fine Q one
    → Fine Q other
    → Fine Q (if t then one else other)
Fine-if Q true one other h k = h
Fine-if Q false one other h k = k

-- Input that is left: no more than n bytes.
abbrev pub Left : {A : Type 0} → ℕ → A × Bytes → Type 0
Left n x = length (x.1) ≤ n

pub length-skip_spaces : (ts : Bytes) → length (skip_spaces ts) ≤ length ts
unfolding skip_spaces
length-skip_spaces [] = omega arith
length-skip_spaces (b ∷ bs) = ground (arith, length-skip_spaces bs)

pub length-span : (t : ℕ → Bool) (ts : Bytes) → length ((span t ts).1) ≤ length ts
unfolding span
length-span t [] = omega arith
length-span t (b ∷ bs) = ground (arith, length-span t bs)

expect_byte-Fine :
    (ch : ℕ) (ts : Bytes) → Fine (λ rest. length rest < length ts) (expect_byte ch ts)
expect_byte-Fine ch [] = tt
expect_byte-Fine ch (b ∷ bs) = byte-Fine (b == ch) bs
  where
    byte-Fine :
        (t : Bool) (bs : Bytes)
        → Fine (λ rest. length rest < suc (length bs)) (if t then ok bs else err Error.expected)
    byte-Fine true bs = omega arith
    byte-Fine false bs = tt

Fine-weaken :
    {A : Type 0} {P Q : A → Type 0} (m : Result Error A)
    → Fine P m
    → ((x : A) → P x → Q x)
    → Fine Q m
Fine-weaken panic h k = h
Fine-weaken (err e) h k = tt
Fine-weaken (ok x) h k = k x h

pub expect-Fine :
    (ch n : ℕ) (ts : Bytes) → length ts ≤ n → Fine (λ rest. length rest < n) (expect ch ts)
unfolding expect
expect-Fine ch n ts h =
    Fine-weaken (expect_byte ch (skip_spaces ts)) (expect_byte-Fine ch (skip_spaces ts))
      (λ rest k. omega (arith, k, h, length-skip_spaces ts))

atoi-Fine : (digits : Bytes) → Fine (λ n. Unit {0}) (atoi digits)
unfolding atoi
atoi-Fine digits =
    Fine-if (λ n. Unit {0}) (ltb (value 0 digits) (2 ^ 63)) (ok (value 0 digits))
      (err Error.out_of_range) tt tt

parse_int-Fine : (n : ℕ) (ts : Bytes) → length ts ≤ n → Fine (Left n) (parse_int ts)
unfolding parse_int
parse_int-Fine n ts h =
    let inner = skip_spaces ts in
    Fine-reject (Left n) (length ((span is_digit inner).0) == 0) Error.expected_integer _
      (λ some_digits.
        Fine-bind (Left n) (atoi ((span is_digit inner).0)) _ (atoi-Fine ((span is_digit inner).0))
          (λ v k. omega (arith, h, length-skip_spaces ts, length-span is_digit inner)))

int_args-Fine :
    (fuel n : ℕ) (ts : Bytes)
    → length ts < fuel
    → length ts ≤ n
    → Fine (Left n) (int_args_loop fuel ts)
unfolding int_args_loop
int_args-Fine zero n ts h below = absurd (omega arith)
int_args-Fine (suc fuel) n ts h below =
    Fine-bind (Left n) (parse_int ts) _ (parse_int-Fine (length ts) ts (omega arith)) (λ x k.
      Fine-test (Left n) (peek (x.1) == 41) _ _ (omega (arith, k, below)) (
        Fine-bind (Left n) (expect 44 (x.1)) _ (expect-Fine 44 (length ts) (x.1) k) (λ rest j.
          Fine-bind (Left n) (int_args_loop fuel rest) _
            (int_args-Fine fuel n rest (omega (arith, j, h)) (omega (arith, j, below)))
            (λ y l. l))))

-- The arguments that were asked for, and input that is left.
abbrev pub Counted : ℕ → ℕ → List ℕ × Bytes → Type 0
Counted count n x = (length (x.0) ≡ count) × (length (x.1) ≤ n)

pub parse_int_args-Fine :
    (count n : ℕ) (ts : Bytes) → length ts ≤ n → Fine (Counted count n) (parse_int_args count ts)
unfolding parse_int_args
parse_int_args-Fine count n ts h = Fine-bind _ (expect 40 ts) _ (expect-Fine 40 n ts h) (λ inner k.
    Fine-bind _ (int_args_loop (length inner + 1) inner) _
      (int_args-Fine (length inner + 1) n inner (omega arith) (omega (arith, k)))
      (λ x j. Fine-bind _ (expect 41 (x.1)) _ (expect-Fine 41 n (x.1) j) (λ rest i.
        Fine-reject _ (not (length (x.0) == count)) Error.argument_count _
          (λ same. (ground (arith, same), omega (arith, i))))))

pub first_arg-Fine : (args : List ℕ) → length args ≡ 1 → Fine (λ n. Unit {0}) (first_arg args)
first_arg-Fine [] h = absurd (omega arith)
first_arg-Fine (n ∷ ns) h = tt

pub two_args-Fine : (args : List ℕ) → length args ≡ 2 → Fine (λ p. Unit {0}) (two_args args)
two_args-Fine [] h = absurd (omega arith)
two_args-Fine (n ∷ []) h = absurd (omega arith)
two_args-Fine (n ∷ (m ∷ ms)) h = tt

pub skip_size-Fine :
    (n : ℕ) (ts : Bytes) → length ts ≤ n → Fine (λ rest. length rest ≤ n) (skip_size ts)
unfolding skip_size
skip_size-Fine n ts h =
    Fine-test _ (peek ts == 40) _ _
      (Fine-bind _ (parse_int_args 1 ts) _ (parse_int_args-Fine 1 n ts h) (λ x k. k.1))
      (omega (arith, h, length-skip_spaces ts))

pub parse_precision-Fine : (n : ℕ) (ts : Bytes) → length ts ≤ n → Fine (Left n) (parse_precision ts)
unfolding parse_precision
parse_precision-Fine n ts h =
    Fine-test _ (peek ts == 40) _ _
      (Fine-bind _ (parse_int_args 1 ts) _ (parse_int_args-Fine 1 n ts h)
        (λ x k. Fine-bind (Left n) (first_arg (x.0)) _ (first_arg-Fine (x.0) (k.0)) (λ m j. k.1)))
      (omega (arith, h, length-skip_spaces ts))
