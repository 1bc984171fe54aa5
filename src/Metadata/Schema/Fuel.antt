-- ===== src/Metadata/Schema/Fuel.antt =====
-- schema_descriptor.go: fieldTypeParser on any input. Each round and each call inside a type consumes a
-- byte, so the length of the input is enough fuel.
use fluss_go_client.Prelude.{
  ℕ, zero, suc, ◌+◌, ◌⊎◌, inl, inr, ◌≤◌, ◌<◌, ◌≡◌, refl, not, ◌==◌, arith, length,
}
use fluss_go_client.Result.{Result, ok, err, panic}
use fluss_go_client.Bytes.{Bytes}
use fluss_go_client.Text.{skip_spaces, trim_space, to_upper}
use fluss_go_client.Row.Types.{FieldType}
use fluss_go_client.Metadata.Schema.Parser.{
  Error, Keyword, keyword, is_identifier_byte, parse_identifier, peek, expect, two_args, all_read,
  parse_int_args, skip_size, parse_precision, row_loop, parse_kind, parse_type, parse_field_type,
}
use fluss_go_client.Metadata.Schema.Steps.{
  Fine, Fine-bind, Fine-reject, Fine-test, Left, length-skip_spaces, length-span, expect-Fine,
  parse_int_args-Fine, two_args-Fine, skip_size-Fine, parse_precision-Fine,
}

module _ (parse : Bytes → Result Error (FieldType × Bytes)) (bound : ℕ)
    (parse-Fine : (n : ℕ) (ts : Bytes)
      → length ts ≤ n
      → length ts < bound
      → Fine (Left n) (parse ts)) where
  row_loop-Fine :
      (rounds n : ℕ) (ts : Bytes)
      → length ts < rounds
      → length ts < bound
      → length ts ≤ n
      → Fine (Left n) (row_loop parse rounds ts)
  unfolding row_loop parse_identifier
  row_loop-Fine zero n ts h below left = absurd (omega arith)
  row_loop-Fine (suc rounds) n ts h below left =
      let behind = skip_spaces ((parse_identifier ts).1) in
      let shorter : length behind ≤ length ts = omega (
        arith,
        length-skip_spaces ((parse_identifier ts).1),
        length-span is_identifier_byte (skip_spaces ts),
        length-skip_spaces ts,
      ) in
      Fine-bind _ (parse behind) _
        (parse-Fine (length ts) behind shorter (omega (arith, below, shorter)))
        (λ x k. Fine-test _ (peek (x.1) == 62) _ _ (omega (arith, k, left)) (
          Fine-bind _ (expect 44 (x.1)) _ (expect-Fine 44 (length ts) (x.1) k) (λ rest j.
            Fine-bind _ (row_loop parse rounds rest) _
              (row_loop-Fine rounds n rest (omega (arith, j, h)) (omega (arith, j, below))
                (omega (arith, j, left)))
              (λ y l. l))))

  -- The cases of `parseType`, over a parser of the types inside that is fine on shorter input.
  parse_kind-Fine :
      (fuel n : ℕ) (k : Keyword) (ts : Bytes)
      → length ts ≤ fuel
      → length ts ≤ bound
      → length ts ≤ n
      → Fine (Left n) (parse_kind parse fuel k ts)
  unfolding parse_kind
  parse_kind-Fine fuel n (Keyword.plain f) ts h below left = left
  parse_kind-Fine fuel n (Keyword.sized f) ts h below left =
      Fine-bind _ (skip_size ts) _ (skip_size-Fine n ts left) (λ rest k. k)
  parse_kind-Fine fuel n Keyword.decimal ts h below left =
      Fine-bind _ (parse_int_args 2 ts) _ (parse_int_args-Fine 2 n ts left)
        (λ x k. Fine-bind (Left n) (two_args (x.0)) _ (two_args-Fine (x.0) (k.0)) (λ p j. k.1))
  parse_kind-Fine fuel n Keyword.timestamp ts h below left =
      Fine-bind _ (parse_precision ts) _ (parse_precision-Fine n ts left) (λ x k. k)
  parse_kind-Fine fuel n Keyword.timestamp_ltz ts h below left =
      Fine-bind _ (parse_precision ts) _ (parse_precision-Fine n ts left) (λ x k. k)
  parse_kind-Fine fuel n Keyword.array ts h below left =
      Fine-bind _ (expect 60 ts) _ (expect-Fine 60 (length ts) ts (omega arith)) (λ rest k.
        Fine-bind _ (parse rest) _
          (parse-Fine n rest (omega (arith, k, left)) (omega (arith, k, below)))
          (λ x j.
            Fine-bind _ (expect 62 (x.1)) _ (expect-Fine 62 n (x.1) j)
              (λ rest' i. omega (arith, i))))
  parse_kind-Fine fuel n Keyword.map ts h below left =
      Fine-bind _ (expect 60 ts) _ (expect-Fine 60 (length ts) ts (omega arith)) (λ rest k.
        Fine-bind _ (parse rest) _
          (parse-Fine (length rest) rest (omega arith) (omega (arith, k, below)))
          (λ x j. Fine-bind _ (expect 44 (x.1)) _ (expect-Fine 44 (length rest) (x.1) j) (λ rest2 i.
            Fine-bind _ (parse rest2) _
              (parse-Fine n rest2 (omega (arith, i, k, left)) (omega (arith, i, k, below)))
              (λ y l.
                Fine-bind _ (expect 62 (y.1)) _ (expect-Fine 62 n (y.1) l)
                  (λ rest4 m. omega (arith, m))))))
  parse_kind-Fine fuel n Keyword.row ts h below left =
      Fine-bind _ (expect 60 ts) _ (expect-Fine 60 (length ts) ts (omega arith)) (λ rest k.
        Fine-bind _ (row_loop parse fuel rest) _
          (row_loop-Fine fuel n rest (omega (arith, k, h)) (omega (arith, k, below))
            (omega (arith, k, left)))
          (λ x j.
            Fine-bind _ (expect 62 (x.1)) _ (expect-Fine 62 n (x.1) j)
              (λ rest' i. omega (arith, i))))
  parse_kind-Fine fuel n Keyword.other ts h below left = tt

parse_type-Fine :
    (fuel n : ℕ) (ts : Bytes)
    → length ts < fuel
    → length ts ≤ n
    → Fine (Left n) (parse_type fuel ts)
unfolding parse_type parse_identifier
parse_type-Fine zero n ts h left = absurd (omega arith)
parse_type-Fine (suc fuel) n ts h left =
    let (ident, rest) = parse_identifier ts in
    let size = length-span is_identifier_byte (skip_spaces ts) in
    parse_kind-Fine (λ x. parse_type fuel x) fuel (λ m x k j. parse_type-Fine fuel m x j k) fuel n
      (keyword (to_upper ident)) rest (omega (arith, h, size, length-skip_spaces ts))
      (omega (arith, h, size, length-skip_spaces ts))
      (omega (arith, left, size, length-skip_spaces ts))

all_read-Fine : (x : FieldType × Bytes) → Fine (λ f. Unit {0}) (all_read x)
all_read-Fine (f, rest) =
    Fine-reject (λ f. Unit {0}) (not (length (skip_spaces rest) == 0)) Error.trailing (ok f)
      (λ e. tt)

Fine-sum :
    {A : Type 0} (P : A → Type 0) (m : Result Error A)
    → Fine P m
    → ((a : A) × (m ≡ ok a)) ⊎ ((e : Error) × (m ≡ err e))
Fine-sum P panic h = absurd h
Fine-sum P (err e) h = inr (e, refl)
Fine-sum P (ok a) h = inl (a, refl)

-- On any text, parseFieldType returns a type or an error: its recursion ends, and it indexes no
-- argument list out of range.
pub parse_field_type_total :
    (input : Bytes)
    → ((f : FieldType) × (parse_field_type input ≡ ok f))
      ⊎ ((e : Error) × (parse_field_type input ≡ err e))
unfolding parse_field_type
parse_field_type_total input =
    let ts = trim_space input in
    Fine-sum (λ f. Unit {0}) (parse_field_type input)
      (Fine-bind (λ f. Unit {0}) (parse_type (length ts + 1) ts) all_read
        (parse_type-Fine (length ts + 1) (length ts) ts (omega arith) (omega arith))
        (λ x h. all_read-Fine x))
