-- ===== src/Row/MapEntries.antt =====
-- row.go: `decodeMap`, and Go's `==` and insertion on a map[any]any, which panics on a key that is not
-- comparable.
use fluss_go_client.Prelude.{
  ℕ, zero, suc, ◌+◌, ◌-◌, ◌/◌, ◌%◌, ◌^◌, Bool, true, false, not, ◌&&◌, ◌||◌, ltb, ◌==◌,
  if◌then◌else◌, length, drop,
}
use fluss_go_client.Result.{Result, ok, panic, ◌>>=◌, ◌>>◌, reject}
use fluss_go_client.Bytes.{Bytes, le_uint}
use fluss_go_client.Bytes.Equal.{bytes_eq}
use fluss_go_client.Row.Types.{Error}
use fluss_go_client.Row.Value.{Value, Entries}
use fluss_go_client.Row.Decode.{read_block, decode_generic_field}

-- A float is its sign bit, `e` bits of exponent and `m` bits of fraction.
is_nan : ℕ → ℕ → ℕ → Bool
is_nan e m v = (v / 2 ^ m % 2 ^ e == 2 ^ e - 1) && not (v % 2 ^ m == 0)

-- NaN is not equal to itself, and the zeros of both signs are equal.
float_eq : ℕ → ℕ → ℕ → ℕ → Bool
unfolding is_nan
float_eq e m a b =
    not (is_nan e m a) && ((a == b) || ((a % 2 ^ (e + m) == 0) && (b % 2 ^ (e + m) == 0)))

-- `==` on keys. A decimal holds a pointer, and decoding makes a new one each time.
unfoldable pub key_eq : Value → Value → Bool
unfolding bytes_eq float_eq
key_eq Value.nil Value.nil = true
key_eq (Value.bool true) (Value.bool b) = b
key_eq (Value.bool false) (Value.bool b) = not b
key_eq (Value.int a) (Value.int b) = a == b
key_eq (Value.int8 a) (Value.int8 b) = a == b
key_eq (Value.int16 a) (Value.int16 b) = a == b
key_eq (Value.int32 a) (Value.int32 b) = a == b
key_eq (Value.int64 a) (Value.int64 b) = a == b
key_eq (Value.float32 a) (Value.float32 b) = float_eq 8 23 a b
key_eq (Value.float64 a) (Value.float64 b) = float_eq 11 52 a b
key_eq (Value.string s) (Value.string t) = bytes_eq s t
key_eq (Value.timestamp_ntz a b) (Value.timestamp_ntz c d) = (a == c) && (b == d)
key_eq (Value.timestamp_ltz a b) (Value.timestamp_ltz c d) = (a == c) && (b == d)
key_eq _ _ = false

-- []byte, []any and map[any]any cannot be keys.
unfoldable pub is_hashable : Value → Bool
is_hashable (Value.bytes s) = false
is_hashable (Value.items vs) = false
is_hashable (Value.entries es) = false
is_hashable _ = true

unfoldable pub insert_entry : Value → Value → Entries → Entries
unfolding key_eq
insert_entry k v Entries.stop = Entries.entry k v Entries.stop
insert_entry k v (Entries.entry j w es) =
    let rest = insert_entry k v es in
    if key_eq j k then Entries.entry j v es else Entries.entry j w rest

-- `result[key] = item`
unfoldable pub assign_entry : Value → Value → Entries → Result Error Entries
unfolding insert_entry is_hashable
assign_entry k v es = if is_hashable k then ok (insert_entry k v es) else panic

-- The loop of `decodeMap`, with the rounds that are left.
unfoldable pub decode_entries :
    (Bytes → Result Error Value)
    → (Bytes → Result Error Value)
    → ℕ
    → Bytes
    → Entries
    → Result Error Entries
decode_entries dec_key dec_value zero rest result = ok result
decode_entries dec_key dec_value (suc count) rest result = do
  (key_block, rest') ← read_block rest
  k ← decode_generic_field dec_key key_block
  (value_block, rest'') ← read_block rest'
  v ← decode_generic_field dec_value value_block
  result' ← assign_entry k v result
  decode_entries dec_key dec_value count rest'' result'

unfoldable pub decode_map :
    (Bytes → Result Error Value) → (Bytes → Result Error Value) → Bytes → Result Error Entries
decode_map dec_key dec_value payload = do
  reject (ltb (length payload) 4) Error.too_short
  decode_entries dec_key dec_value (le_uint 4 payload) (drop 4 payload) Entries.stop
