-- ===== src/Row/Value.antt =====
-- The dynamic values (`any`) of row.go and their conversions `asBool` to `asTimestampLtz`. An integer
-- is its bit pattern at its width, a float is its IEEE bit pattern, a decimal's unscaled number is a
-- ℤ (`none` is a nil *big.Int). `Items` is []any, and `Entries` a map[any]any in the order in which
-- the run time happens to walk it.
use fluss_go_client.Prelude.{
  ℕ, suc, ◌+◌, ◌-◌, ◌*◌, ◌/◌, ◌%◌, ◌^◌, Bool, true, false, Option, none, some, ltb, ◌==◌,
  if◌then◌else◌,
}
use fluss_go_client.Prelude.Int.{ℤ, pos, negsuc, pos_part, eq_ℤ}
use fluss_go_client.Result.{Result, ok, err, panic}
use fluss_go_client.Bytes.{Bytes}
use fluss_go_client.Row.Types.{Error}

mutual
  pub data Value : Type 0 where
    nil : Value
    bool : Bool → Value
    int int8 int16 int32 int64 float32 float64 : ℕ → Value
    string bytes : Bytes → Value
    decimal : Option ℤ → ℤ → Value
    big_int : Option ℤ → Value
    timestamp_ntz timestamp_ltz : ℕ → ℕ → Value
    items : Items → Value
    entries : Entries → Value
    other : Value

  pub data Items : Type 0 where
    end : Items
    item : Value → Items → Items

  pub data Entries : Type 0 where
    stop : Entries
    entry : Value → Value → Entries → Entries

-- What the codec takes from Go's number formats: rounding a float64 to a float32, and big.Rat's
-- SetString, as a numerator and a denominator.
pub record Numbers : Type 0 where
  pub to_float32 : ℕ → ℕ
  pub parse_rat : Bytes → Option (ℤ × ℕ)

abbrev pub is_nil : Value → Bool
is_nil Value.nil = true
is_nil _ = false

unfoldable pub item_count : Items → ℕ
item_count Items.end = 0
item_count (Items.item v vs) = suc (item_count vs)

unfoldable pub entry_count : Entries → ℕ
entry_count Entries.stop = 0
entry_count (Entries.entry k v es) = suc (entry_count es)

-- A signed conversion to a wider type.
abbrev pub sign_extend : ℕ → ℕ → ℕ → ℕ
sign_extend from to v = if ltb v (2 ^ (from - 1)) then v else v + (2 ^ to - 2 ^ from)

unfoldable pub as_bool : Value → Result Error Bool
as_bool (Value.bool b) = ok b
as_bool _ = err Error.wrong_type

unfoldable pub as_int8 : Value → Result Error ℕ
as_int8 (Value.int8 v) = ok v
as_int8 (Value.int v) = ok (v % 2 ^ 8)
as_int8 (Value.int16 v) = ok (v % 2 ^ 8)
as_int8 (Value.int32 v) = ok (v % 2 ^ 8)
as_int8 (Value.int64 v) = ok (v % 2 ^ 8)
as_int8 _ = err Error.wrong_type

unfoldable pub as_int16 : Value → Result Error ℕ
as_int16 (Value.int16 v) = ok v
as_int16 (Value.int v) = ok (v % 2 ^ 16)
as_int16 (Value.int8 v) = ok (sign_extend 8 16 v)
as_int16 (Value.int32 v) = ok (v % 2 ^ 16)
as_int16 (Value.int64 v) = ok (v % 2 ^ 16)
as_int16 _ = err Error.wrong_type

unfoldable pub as_int32 : Value → Result Error ℕ
as_int32 (Value.int32 v) = ok v
as_int32 (Value.int v) = ok (v % 2 ^ 32)
as_int32 (Value.int64 v) = ok (v % 2 ^ 32)
as_int32 _ = err Error.wrong_type

unfoldable pub as_int64 : Value → Result Error ℕ
as_int64 (Value.int64 v) = ok v
as_int64 (Value.int v) = ok v
as_int64 (Value.int32 v) = ok (sign_extend 32 64 v)
as_int64 _ = err Error.wrong_type

unfoldable pub as_float64 : Value → Result Error ℕ
as_float64 (Value.float64 v) = ok v
as_float64 _ = err Error.wrong_type

unfoldable pub as_float32 : Numbers → Value → Result Error ℕ
as_float32 num (Value.float32 v) = ok v
as_float32 num (Value.float64 v) = ok (num.to_float32 v)
as_float32 num _ = err Error.wrong_type

unfoldable pub as_string : Value → Result Error Bytes
as_string (Value.string s) = ok s
as_string (Value.bytes s) = ok s
as_string _ = err Error.wrong_type

unfoldable pub as_bytes : Value → Result Error Bytes
as_bytes (Value.bytes s) = ok s
as_bytes _ = err Error.wrong_type

-- `rat.Mul(rat, 10^scale)`, and its numerator if the product is an integer.
scale_rat : ℤ → Option (ℤ × ℕ) → Result Error ℤ
scale_rat scale none = err Error.bad_decimal
scale_rat scale (some (pos n, d)) =
    let m = n * 10 ^ pos_part scale in
    if m % d == 0 then ok (pos (m / d)) else err Error.bad_decimal
scale_rat scale (some (negsuc n, d)) =
    let m = suc n * 10 ^ pos_part scale in
    if m % d == 0 then ok (negsuc (m / d - 1)) else err Error.bad_decimal

-- The unscaled number of `asDecimal`; its scale is always the field's.
unfoldable pub as_decimal : Numbers → ℤ → Value → Result Error ℤ
unfolding scale_rat
as_decimal num scale (Value.decimal none s) = err Error.bad_decimal
as_decimal num scale (Value.decimal (some u) s) =
    if eq_ℤ s scale then ok u else err Error.bad_decimal
as_decimal num scale (Value.big_int none) = panic
as_decimal num scale (Value.big_int (some u)) = ok u
as_decimal num scale (Value.string s) = scale_rat scale (num.parse_rat s)
as_decimal num scale _ = err Error.wrong_type

unfoldable pub as_timestamp_ntz : Value → Result Error (ℕ × ℕ)
as_timestamp_ntz (Value.timestamp_ntz ms nanos) = ok (ms, nanos)
as_timestamp_ntz _ = err Error.wrong_type

unfoldable pub as_timestamp_ltz : Value → Result Error (ℕ × ℕ)
as_timestamp_ltz (Value.timestamp_ltz ms nanos) = ok (ms, nanos)
as_timestamp_ltz _ = err Error.wrong_type

-- `value.([]any)` and `value.(map[any]any)`
unfoldable pub as_items : Value → Result Error Items
as_items (Value.items vs) = ok vs
as_items _ = err Error.wrong_type

unfoldable pub as_entries : Value → Result Error Entries
as_entries (Value.entries es) = ok es
as_entries _ = err Error.wrong_type
