-- ===== src/Metadata/Schema/Parser.antt =====
-- schema_descriptor.go: fieldTypeParser, whose state is the input from `pos` on. Texts are bytes; an
-- identifier is compared after ToUpper.
use fluss_go_client.Prelude.{
  ℕ, zero, suc, ◌+◌, ◌^◌, Bool, true, false, not, ◌||◌, ltb, ◌==◌, if◌then◌else◌, List, [], ◌∷◌,
  length,
}
use fluss_go_client.Prelude.Int.{pos}
use fluss_go_client.Result.{Result, ok, err, panic, ◌>>=◌, ◌>>◌, reject}
use fluss_go_client.Bytes.{Bytes}
use fluss_go_client.Bytes.Equal.{bytes_eq}
use fluss_go_client.Text.{codes, is_letter, is_digit, skip_spaces, trim_space, to_upper, span}
use fluss_go_client.Format.{value}
use fluss_go_client.Row.Types.{FieldType, FieldPtr, Fields}

-- The errors, without the texts.
pub data Error : Type 0 where
  unsupported expected expected_integer out_of_range argument_count trailing : Error
  missing_data_type missing_element missing_key_value bad_json : Error
  at_column : Bytes → Bytes → Error → Error
  at_row_field : ℕ → Bytes → Error → Error

-- The cases of the `switch` on the identifier.
pub data Keyword : Type 0 where
  plain : FieldType → Keyword
  sized : FieldType → Keyword
  decimal timestamp timestamp_ltz array map row other : Keyword

unfoldable pub keyword : Bytes → Keyword
keyword ident =
    let is : Bytes → Bool = λ k. bytes_eq ident k in
    if is (codes "BOOLEAN")
    then Keyword.plain FieldType.bool
    else if is (codes "TINYINT")
    then Keyword.plain FieldType.int8
    else if is (codes "SMALLINT")
    then Keyword.plain FieldType.int16
    else if is (codes "INT") || is (codes "INTEGER")
    then Keyword.plain FieldType.int32
    else if is (codes "BIGINT")
    then Keyword.plain FieldType.int64
    else if is (codes "FLOAT")
    then Keyword.plain FieldType.float32
    else if is (codes "DOUBLE")
    then Keyword.plain FieldType.float64
    else if is (codes "STRING") || (is (codes "VARCHAR") || is (codes "CHAR"))
    then Keyword.sized FieldType.string
    else if is (codes "BYTES") || (is (codes "BINARY") || is (codes "VARBINARY"))
    then Keyword.sized FieldType.bytes
    else if is (codes "DECIMAL")
    then Keyword.decimal
    else if is (codes "DATE")
    then Keyword.plain FieldType.date
    else if is (codes "TIME")
    then Keyword.sized FieldType.time
    else if is (codes "TIMESTAMP")
    then Keyword.timestamp
    else if is (codes "TIMESTAMP_LTZ")
    then Keyword.timestamp_ltz
    else if is (codes "ARRAY")
    then Keyword.array
    else if is (codes "MAP")
    then Keyword.map
    else if is (codes "ROW")
    then Keyword.row
    else Keyword.other

unfoldable pub is_identifier_byte : ℕ → Bool
is_identifier_byte b = is_letter b || (is_digit b || (b == b'_'))

-- The identifier, and the input behind it.
unfoldable pub parse_identifier : Bytes → Bytes × Bytes
parse_identifier ts = span is_identifier_byte (skip_spaces ts)

-- The byte behind the spaces (0 at the end), which are skipped.
unfoldable pub peek : Bytes → ℕ
peek ts = elim (skip_spaces ts) [ [] ↦ 0 | b ∷ bs ↦ b ]

abbrev pub expect_byte : ℕ → Bytes → Result Error Bytes
expect_byte ch [] = err Error.expected
expect_byte ch (b ∷ bs) = if b == ch then ok bs else err Error.expected

unfoldable pub expect : ℕ → Bytes → Result Error Bytes
expect ch ts = expect_byte ch (skip_spaces ts)

-- strconv.Atoi of digits: an int has 64 bits.
unfoldable pub atoi : Bytes → Result Error ℕ
atoi digits = let n = value 0 digits in if ltb n (2 ^ 63) then ok n else err Error.out_of_range

-- Digits behind spaces, and their number.
unfoldable pub parse_int : Bytes → Result Error (ℕ × Bytes)
parse_int ts = do
  let (digits, rest) = span is_digit (skip_spaces ts)
  reject (length digits == 0) Error.expected_integer
  n ← atoi digits
  ok (n, rest)

-- The loop of `parseIntArgs`, with the rounds that are left; running out of them is a panic here.
unfoldable pub int_args_loop : ℕ → Bytes → Result Error (List ℕ × Bytes)
int_args_loop zero ts = panic
int_args_loop (suc fuel) ts = do
  (n, rest) ← parse_int ts
  elim (peek rest == b')') [
    | true ↦ ok (n ∷ [], rest)
    | false ↦ do
      rest' ← expect b',' rest
      (ns, rest'') ← int_args_loop fuel rest'
      ok (n ∷ ns, rest'')
  ]

unfoldable pub parse_int_args : ℕ → Bytes → Result Error (List ℕ × Bytes)
parse_int_args count ts = do
  inner ← expect b'(' ts
  (args, rest) ← int_args_loop (length inner + 1) inner
  rest' ← expect b')' rest
  reject (not (length args == count)) Error.argument_count
  ok (args, rest')

-- An argument in brackets that is read and dropped, or none.
unfoldable pub skip_size : Bytes → Result Error Bytes
skip_size ts = elim (peek ts == b'(') [
  | true ↦ do (args, rest) ← parse_int_args 1 ts; ok rest
  | false ↦ ok (skip_spaces ts)
]

abbrev pub first_arg : List ℕ → Result Error ℕ
first_arg (n ∷ ns) = ok n
first_arg [] = panic

abbrev pub two_args : List ℕ → Result Error (ℕ × ℕ)
two_args (n ∷ (m ∷ ms)) = ok (n, m)
two_args _ = panic

-- An argument in brackets, or 6.
unfoldable pub parse_precision : Bytes → Result Error (ℕ × Bytes)
parse_precision ts = elim (peek ts == b'(') [
  | true ↦ do (args, rest) ← parse_int_args 1 ts; n ← first_arg args; ok (n, rest)
  | false ↦ ok (6, skip_spaces ts)
]

-- The loop over the fields of a ROW, over the parser of a type, with the rounds that are left.
unfoldable pub row_loop :
    (Bytes → Result Error (FieldType × Bytes)) → ℕ → Bytes → Result Error (Fields × Bytes)
row_loop parse zero ts = panic
row_loop parse (suc fuel) ts = do
  (f, rest) ← parse (skip_spaces ((parse_identifier ts).1))
  elim (peek rest == b'>') [
    | true ↦ ok (Fields.field f Fields.end, rest)
    | false ↦ do
      rest' ← expect b',' rest
      (fs, rest'') ← row_loop parse fuel rest'
      ok (Fields.field f fs, rest'')
  ]

-- The cases of `parseType`, over the parser of the types inside.
unfoldable pub parse_kind :
    (Bytes → Result Error (FieldType × Bytes))
    → ℕ
    → Keyword
    → Bytes
    → Result Error (FieldType × Bytes)
parse_kind parse fuel (Keyword.plain f) ts = ok (f, ts)
parse_kind parse fuel (Keyword.sized f) ts = do rest ← skip_size ts; ok (f, rest)
parse_kind parse fuel Keyword.decimal ts = do
  (args, rest) ← parse_int_args 2 ts
  (precision, scale) ← two_args args
  ok (FieldType.decimal (pos precision) (pos scale), rest)
parse_kind parse fuel Keyword.timestamp ts = do
  (precision, rest) ← parse_precision ts
  ok (FieldType.timestamp_ntz (pos precision), rest)
parse_kind parse fuel Keyword.timestamp_ltz ts = do
  (precision, rest) ← parse_precision ts
  ok (FieldType.timestamp_ltz (pos precision), rest)
parse_kind parse fuel Keyword.array ts = do
  rest ← expect b'<' ts
  (element, rest') ← parse rest
  rest'' ← expect b'>' rest'
  ok (FieldType.array (FieldPtr.ptr element), rest'')
parse_kind parse fuel Keyword.map ts = do
  rest ← expect b'<' ts
  (key, rest1) ← parse rest
  rest2 ← expect b',' rest1
  (item, rest3) ← parse rest2
  rest4 ← expect b'>' rest3
  ok (FieldType.map (FieldPtr.ptr key) (FieldPtr.ptr item), rest4)
parse_kind parse fuel Keyword.row ts = do
  rest ← expect b'<' ts
  (fs, rest') ← row_loop parse fuel rest
  rest'' ← expect b'>' rest'
  ok (FieldType.row fs, rest'')
parse_kind parse fuel Keyword.other ts = err Error.unsupported

-- `parseType`, with the calls that are left; running out of them is a panic here.
unfoldable pub parse_type : ℕ → Bytes → Result Error (FieldType × Bytes)
parse_type zero ts = panic
parse_type (suc fuel) ts =
    let (ident, rest) = parse_identifier ts in
    parse_kind (λ ts'. parse_type fuel ts') fuel (keyword (to_upper ident)) rest

abbrev pub all_read : FieldType × Bytes → Result Error FieldType
all_read (f, rest) = do reject (not (length (skip_spaces rest) == 0)) Error.trailing; ok f

unfoldable pub parse_field_type : Bytes → Result Error FieldType
parse_field_type input = let ts = trim_space input in parse_type (length ts + 1) ts >>= all_read
