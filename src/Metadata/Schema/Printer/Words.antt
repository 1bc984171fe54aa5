-- ===== src/Metadata/Schema/Printer/Words.antt =====
-- schema_descriptor.go: the steps of fieldTypeParser on keywords, sizes and what follows a type.
use fluss_go_client.Prelude.{
  ℕ, suc, ◌+◌, ◌^◌, ◌<◌, ◌≡◌, refl, ◌∙◌, Bool, true, false, not, ◌&&◌, ◌||◌, and_parts, lt→ltb,
  ◌==◌, arith, [], ◌∷◌, ◌++◌, length, length-append, All,
}
use fluss_go_client.Prelude.Int.{pos}
use fluss_go_client.Result.{ok}
use fluss_go_client.Bytes.{Bytes}
use fluss_go_client.Text.{is_letter, is_digit, is_space, skip_spaces, to_upper, span}
use fluss_go_client.Format.{digits_loop, format_d, value}
use fluss_go_client.Format.Injective.{
  IsDigits, digits_loop-IsDigits, value-digits_loop, length-digits_loop,
}
use fluss_go_client.Row.Types.{FieldType, Fields}
use fluss_go_client.Metadata.Schema.Parser.{
  Keyword, keyword, is_identifier_byte, parse_identifier, peek, expect, atoi, parse_int,
  int_args_loop, parse_int_args, skip_size, parse_precision, parse_kind, parse_type,
}
use fluss_go_client.Metadata.Schema.Printer.{print_type, print_more, IsPrintable}

-- What may follow a type: nothing, a comma or a closing bracket.
abbrev pub IsStop : Bytes → Type 0
IsStop [] = Unit
IsStop (b ∷ bs) = (b == b',') || ((b == b'>') || (b == b')')) ≡ true

-- Bytes that all pass a test, and then one that does not.
span-append :
    (t : ℕ → Bool) (front rest : Bytes)
    → All (λ b. t b ≡ true) front
    → (span t rest ≡ ([], rest))
    → span t (front ++ rest) ≡ (front, rest)
unfolding span
span-append t [] rest h stop = stop
span-append t (b ∷ front) rest h stop = rw (h.0, span) (rw (span-append t front rest h.1 stop) refl)

skip_stop : (rest : Bytes) → IsStop rest → skip_spaces rest ≡ rest
unfolding skip_spaces is_space
skip_stop [] h = refl
skip_stop (b ∷ rest) h = ground (arith, h)

span_stop : (rest : Bytes) → IsStop rest → span is_identifier_byte rest ≡ ([], rest)
unfolding span is_identifier_byte is_letter is_digit
span_stop [] h = refl
span_stop (b ∷ rest) h = ground (arith, h)

span_digits_stop : (rest : Bytes) → IsStop rest → span is_digit rest ≡ ([], rest)
unfolding span is_digit
span_digits_stop [] h = refl
span_digits_stop (b ∷ rest) h = ground (arith, h)

-- Digits.
digits-All : (bs : Bytes) → IsDigits bs → All (λ b. is_digit b ≡ true) bs
unfolding is_digit
digits-All [] h = tt
digits-All (b ∷ bs) h = (ground (arith, h.0), digits-All bs h.1)

skip_digits :
    (bs rest : Bytes) → IsDigits bs → 0 < length bs → skip_spaces (bs ++ rest) ≡ bs ++ rest
unfolding skip_spaces is_space
skip_digits [] rest h n = absurd (omega arith)
skip_digits (b ∷ bs) rest h n = ground (arith, h.0)

parse_int-format_d :
    (n : ℕ) (rest : Bytes)
    → n < 2 ^ 63
    → IsStop rest
    → parse_int (format_d (pos n) ++ rest) ≡ ok (n, rest)
unfolding parse_int format_d atoi
parse_int-format_d n rest h stop =
    let d = digits_loop-IsDigits n n [] tt in
    let size = length-digits_loop n n [] in
    let v : value 0 (digits_loop n n []) ≡ n =
      value-digits_loop n n [] (omega arith) ∙ unfold value in refl in
    let some_digits : (length (digits_loop n n []) == 0) ≡ false = ground (arith, size) in
    rw (skip_digits (digits_loop n n []) rest d size) (
      rw
        (span-append is_digit (digits_loop n n []) rest (digits-All (digits_loop n n []) d)
          (span_digits_stop rest stop))
        (rw some_digits (rw v (rw (lt→ltb n (2 ^ 63) h) refl))))

-- One and two sizes in brackets.
pub one_arg :
    (n : ℕ) (rest : Bytes)
    → n < 2 ^ 63
    → parse_int_args 1 (40 ∷ (format_d (pos n) ++ (41 ∷ rest))) ≡ ok (n ∷ [], rest)
unfolding parse_int_args int_args_loop expect peek skip_spaces is_space
one_arg n rest h =
    let fuel : length (format_d (pos n) ++ (41 ∷ rest)) + 1
        ≡ suc (length (format_d (pos n) ++ (41 ∷ rest))) =
      omega arith in
    rw fuel (rw (parse_int-format_d n (41 ∷ rest) h refl) refl)

pub both_args :
    (n m : ℕ) (rest : Bytes)
    → n < 2 ^ 63
    → m < 2 ^ 63
    → parse_int_args 2 (40 ∷ (format_d (pos n) ++ (44 ∷ (format_d (pos m) ++ (41 ∷ rest)))))
      ≡ ok (n ∷ (m ∷ []), rest)
unfolding parse_int_args int_args_loop expect peek skip_spaces is_space
both_args n m rest hn hm =
    let inner = format_d (pos n) ++ (44 ∷ (format_d (pos m) ++ (41 ∷ rest))) in
    let fuel : length inner + 1
        ≡ suc (suc (length (format_d (pos n)) + length (format_d (pos m) ++ (41 ∷ rest)))) =
      omega (arith, length-append (format_d (pos n)) (44 ∷ (format_d (pos m) ++ (41 ∷ rest)))) in
    rw fuel (
      rw (parse_int-format_d n (44 ∷ (format_d (pos m) ++ (41 ∷ rest))) hn refl)
        (rw (parse_int-format_d m (41 ∷ rest) hm refl) refl))

-- A keyword in front of what is no part of an identifier.
unfoldable pub all_pass : (ℕ → Bool) → Bytes → Bool
all_pass t [] = true
all_pass t (b ∷ bs) = t b && all_pass t bs

all_pass-All : (t : ℕ → Bool) (bs : Bytes) → all_pass t bs ≡ true → All (λ b. t b ≡ true) bs
unfolding all_pass
all_pass-All t [] h = tt
all_pass-All t (b ∷ bs) h = let (p, q) = and_parts (t b) _ h in (p, all_pass-All t bs q)

-- A text that begins with a byte that is no space.
unfoldable pub visible : Bytes → Bool
visible [] = false
visible (b ∷ bs) = not (is_space b)

pub skip_visible : (k rest : Bytes) → visible k ≡ true → skip_spaces (k ++ rest) ≡ k ++ rest
unfolding skip_spaces visible
skip_visible [] rest h = absurd (cc)
skip_visible (b ∷ k) rest h = ground (arith, h)

pub parse_type-keyword :
    (fuel : ℕ) (k rest : Bytes)
    → visible k ≡ true
    → all_pass is_identifier_byte k ≡ true
    → span is_identifier_byte rest ≡ ([], rest)
    → parse_type (suc fuel) (k ++ rest)
      ≡ parse_kind (λ ts. parse_type fuel ts) fuel (keyword (to_upper k)) rest
unfolding parse_type parse_identifier
parse_type-keyword fuel k rest v letters stop = rw (skip_visible k rest v) (
    rw (span-append is_identifier_byte k rest (all_pass-All is_identifier_byte k letters) stop)
      refl)

pub plain_reads :
    (f : FieldType) (fuel : ℕ) (k rest : Bytes)
    → visible k ≡ true
    → all_pass is_identifier_byte k ≡ true
    → keyword (to_upper k) ≡ Keyword.plain f
    → IsStop rest
    → parse_type (suc fuel) (k ++ rest) ≡ ok (f, rest)
unfolding parse_kind
plain_reads f fuel k rest v letters kind stop =
    parse_type-keyword fuel k rest v letters (span_stop rest stop) ∙ rw kind refl

peek_stop : (b : ℕ) (rest : Bytes) → IsStop (b ∷ rest) → peek (b ∷ rest) ≡ b
unfolding peek
peek_stop b rest h = rw (skip_stop (b ∷ rest) h, peek) refl

no_size : (rest : Bytes) → IsStop rest → skip_size rest ≡ ok rest
unfolding skip_size
no_size [] h = unfold peek skip_spaces in refl
no_size (b ∷ rest) h =
    let e : (b == 40) ≡ false = ground (arith, h) in
    rw (peek_stop b rest h, skip_size) (rw e (rw (skip_stop (b ∷ rest) h) refl))

pub sized_reads :
    (f : FieldType) (fuel : ℕ) (k rest : Bytes)
    → visible k ≡ true
    → all_pass is_identifier_byte k ≡ true
    → keyword (to_upper k) ≡ Keyword.sized f
    → IsStop rest
    → parse_type (suc fuel) (k ++ rest) ≡ ok (f, rest)
unfolding parse_kind
sized_reads f fuel k rest v letters kind stop =
    parse_type-keyword fuel k rest v letters (span_stop rest stop)
    ∙ rw kind (rw (no_size rest stop) refl)

pub precision_read :
    (n : ℕ) (rest : Bytes)
    → n < 2 ^ 63
    → parse_precision (40 ∷ (format_d (pos n) ++ (41 ∷ rest))) ≡ ok (n, rest)
unfolding parse_precision peek skip_spaces is_space
precision_read n rest h = rw (one_arg n rest h) refl

pub print_more-IsStop : (fs : Fields) (rest : Bytes) → IsStop (print_more fs ++ (62 ∷ rest))
unfolding print_more
print_more-IsStop Fields.end rest = refl
print_more-IsStop (Fields.field f fs) rest = refl

pub skip_type :
    (f : FieldType) (rest : Bytes)
    → IsPrintable f
    → skip_spaces (print_type f ++ rest) ≡ print_type f ++ rest
unfolding print_type skip_spaces is_space
skip_type FieldType.unsupported rest h = absurd h
skip_type _ rest h = refl
