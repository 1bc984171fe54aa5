-- ===== src/Row/Decode.antt =====
-- row.go, from bytes to values: `decodeRow`, `compactedFieldSize`, `decodeValue` and what they call.
-- An offset into a slice is the rest of the slice behind it, so `off+n > len(payload)` reads
-- `length rest < n`.
use Prim.Native.Nat.{bit_and}
use fluss_go_client.Prelude.{
  ℕ, zero, suc, ◌+◌, ◌/◌, ◌%◌, ◌^◌, Bool, true, false, not, none, some, ltb, ◌==◌, if◌then◌else◌,
  List, [], ◌∷◌, length, get_or, take, drop,
}
use fluss_go_client.Prelude.Int.{ℤ, pos, leb_ℤ}
use fluss_go_client.Result.{Result, ok, err, ◌>>=◌, ◌>>◌, reject}
use fluss_go_client.Bytes.{Bytes, le_uint, uvarint}
use fluss_go_client.Row.Types.{FieldType, Fields, Error, field_count, is_fixed, validate_schema}
use fluss_go_client.Row.Value.{Value, Items}
use fluss_go_client.Row.Number.{of_int64, set_bytes}
use fluss_go_client.Row.Encode.{null_bits_size}

-- `nullBits[i/8]&(1<<uint(i%8)) != 0`
unfoldable pub null_bit : Bytes → ℕ → Bool
null_bit bits i = not (bit_and (get_or bits (i / 8) 0) (2 ^ (i % 8)) == 0)

-- A varint, or the error for a count of 0 or below.
unfoldable pub read_uvarint : Bytes → Result Error (ℕ × ℕ)
read_uvarint payload = elim (uvarint payload) [ none ↦ err Error.invalid_varint | some r ↦ ok r ]

unfoldable pub decode_compacted_uint32 : Bytes → Result Error (ℕ × ℕ)
unfolding read_uvarint
decode_compacted_uint32 payload = do (v, n) ← read_uvarint payload; ok (v % 2 ^ 32, n)

unfoldable pub decode_compacted_int32 : Bytes → Result Error ℕ
unfolding read_uvarint
decode_compacted_int32 payload = do (v, n) ← read_uvarint payload; ok (v % 2 ^ 32)

unfoldable pub decode_compacted_int64 : Bytes → Result Error ℕ
unfolding read_uvarint
decode_compacted_int64 payload = do (v, n) ← read_uvarint payload; ok v

unfoldable pub decode_length_prefixed_bytes : Bytes → Bool → Result Error Bytes
unfolding decode_compacted_uint32
decode_length_prefixed_bytes payload true = do
  reject (ltb (length payload) 4) Error.too_short
  ok (drop 4 payload)
decode_length_prefixed_bytes payload false = do
  (len, n) ← decode_compacted_uint32 payload
  reject (ltb (length payload) (n + len)) Error.too_short
  ok (take len (drop n payload))

-- `len(payload) < k` is an error; the first `k` bytes otherwise.
unfoldable pub decode_fixed : ℕ → Bytes → Result Error ℕ
decode_fixed k payload = do reject (ltb (length payload) k) Error.too_short; ok (le_uint k payload)

unfoldable pub decode_decimal : ℤ → ℤ → Bytes → Bool → Result Error Value
unfolding decode_fixed decode_compacted_int64 decode_length_prefixed_bytes
decode_decimal precision scale payload indexed =
    if leb_ℤ precision (pos 18)
    then (do
      w ← (if indexed then decode_fixed 8 payload else decode_compacted_int64 payload)
      ok (Value.decimal (some (of_int64 w)) scale))
    else do
      raw ← decode_length_prefixed_bytes payload indexed
      ok (Value.decimal (some (set_bytes raw)) scale)

-- `decodeTimestampNtz` and `decodeTimestampLtz`, which have the same body.
unfoldable pub decode_timestamp : ℤ → Bytes → Bool → Result Error (ℕ × ℕ)
unfolding decode_fixed decode_compacted_int64
decode_timestamp precision payload indexed =
    if leb_ℤ precision (pos 3)
    then (do
      ms ← (if indexed then decode_fixed 8 payload else decode_compacted_int64 payload)
      ok (ms, 0))
    else do
      reject (ltb (length payload) 12) Error.too_short
      ok (le_uint 8 payload, le_uint 4 (drop 8 payload))

unfoldable pub decode_int32 : Bytes → Bool → Result Error ℕ
unfolding decode_fixed decode_compacted_int32
decode_int32 payload indexed =
    if indexed then decode_fixed 4 payload else decode_compacted_int32 payload

unfoldable pub decode_int64 : Bytes → Bool → Result Error ℕ
unfolding decode_fixed decode_compacted_int64
decode_int64 payload indexed =
    if indexed then decode_fixed 8 payload else decode_compacted_int64 payload

-- `len(payload) > 0 && payload[0] != 0`
abbrev decode_bool : Bytes → Bool
decode_bool [] = false
decode_bool (b ∷ bs) = not (b == 0)

-- The cases of `decodeValue` that do not recur.
unfoldable pub decode_scalar : FieldType → Bytes → Bool → Result Error Value
unfolding decode_fixed decode_int32 decode_int64 decode_length_prefixed_bytes decode_decimal
    decode_timestamp
decode_scalar FieldType.bool payload indexed = ok (Value.bool (decode_bool payload))
decode_scalar FieldType.int8 payload indexed = do v ← decode_fixed 1 payload; ok (Value.int8 v)
decode_scalar FieldType.int16 payload indexed = do v ← decode_fixed 2 payload; ok (Value.int16 v)
decode_scalar FieldType.int32 payload indexed = do
  v ← decode_int32 payload indexed
  ok (Value.int32 v)
decode_scalar FieldType.int64 payload indexed = do
  v ← decode_int64 payload indexed
  ok (Value.int64 v)
decode_scalar FieldType.float32 payload indexed = do
  v ← decode_fixed 4 payload
  ok (Value.float32 v)
decode_scalar FieldType.float64 payload indexed = do
  v ← decode_fixed 8 payload
  ok (Value.float64 v)
decode_scalar FieldType.string payload indexed = do
  s ← decode_length_prefixed_bytes payload indexed
  ok (Value.string s)
decode_scalar FieldType.bytes payload indexed = do
  s ← decode_length_prefixed_bytes payload indexed
  ok (Value.bytes s)
decode_scalar (FieldType.decimal precision scale) payload indexed =
    decode_decimal precision scale payload indexed
decode_scalar FieldType.date payload indexed = do
  v ← decode_int32 payload indexed
  ok (Value.int32 v)
decode_scalar FieldType.time payload indexed = do
  v ← decode_int32 payload indexed
  ok (Value.int32 v)
decode_scalar (FieldType.timestamp_ntz precision) payload indexed = do
  (ms, nanos) ← decode_timestamp precision payload indexed
  ok (Value.timestamp_ntz ms nanos)
decode_scalar (FieldType.timestamp_ltz precision) payload indexed = do
  (ms, nanos) ← decode_timestamp precision payload indexed
  ok (Value.timestamp_ltz ms nanos)
decode_scalar _ payload indexed = err Error.unsupported_type

abbrev varint_size : Bytes → Result Error ℕ
varint_size payload = do (v, n) ← read_uvarint payload; ok n

abbrev prefixed_size : Bytes → Result Error ℕ
prefixed_size payload = do (len, n) ← decode_compacted_uint32 payload; ok (n + len)

unfoldable pub compacted_timestamp_size : ℤ → Bytes → Result Error ℕ
unfolding read_uvarint
compacted_timestamp_size precision payload =
    if leb_ℤ precision (pos 3)
    then varint_size payload
    else do n1 ← varint_size payload; n2 ← varint_size (drop n1 payload); ok (n1 + n2)

unfoldable pub compacted_field_size : FieldType → Bytes → Result Error ℕ
unfolding read_uvarint decode_compacted_uint32 compacted_timestamp_size
compacted_field_size FieldType.bool payload = ok 1
compacted_field_size FieldType.int8 payload = ok 1
compacted_field_size FieldType.int16 payload = ok 2
compacted_field_size FieldType.int32 payload = varint_size payload
compacted_field_size FieldType.date payload = varint_size payload
compacted_field_size FieldType.time payload = varint_size payload
compacted_field_size FieldType.int64 payload = varint_size payload
compacted_field_size FieldType.float32 payload = ok 4
compacted_field_size FieldType.float64 payload = ok 8
compacted_field_size FieldType.string payload = prefixed_size payload
compacted_field_size FieldType.bytes payload = prefixed_size payload
compacted_field_size (FieldType.decimal precision scale) payload =
    if leb_ℤ precision (pos 18) then varint_size payload else prefixed_size payload
compacted_field_size (FieldType.timestamp_ntz precision) payload =
    compacted_timestamp_size precision payload
compacted_field_size (FieldType.timestamp_ltz precision) payload =
    compacted_timestamp_size precision payload
compacted_field_size _ payload = err Error.not_implemented

unfoldable pub fixed_size : FieldType → ℕ
fixed_size FieldType.bool = 1
fixed_size FieldType.int8 = 1
fixed_size FieldType.int16 = 2
fixed_size FieldType.int32 = 4
fixed_size FieldType.int64 = 8
fixed_size FieldType.float32 = 4
fixed_size FieldType.float64 = 8
fixed_size FieldType.date = 4
fixed_size FieldType.time = 4
fixed_size (FieldType.decimal precision scale) = if leb_ℤ precision (pos 18) then 8 else 0
fixed_size (FieldType.timestamp_ntz precision) = if leb_ℤ precision (pos 3) then 8 else 0
fixed_size (FieldType.timestamp_ltz precision) = if leb_ℤ precision (pos 3) then 8 else 0
fixed_size _ = 0

-- `decodeGenericField`, over the decoder of its field.
unfoldable pub decode_generic_field : (Bytes → Result Error Value) → Bytes → Result Error Value
decode_generic_field dec [] = err Error.too_short
decode_generic_field dec (b ∷ bs) = elim (b == 1) [ true ↦ ok Value.nil | false ↦ dec bs ]

-- A length of four bytes and as many bytes behind it: the bytes, and what follows them.
unfoldable pub read_block : Bytes → Result Error (Bytes × Bytes)
read_block rest = do
  reject (ltb (length rest) 4) Error.truncated
  let n = le_uint 4 rest
  let tail = drop 4 rest
  reject (ltb (length tail) n) Error.truncated
  ok (take n tail, drop n tail)

-- The loop of `decodeLengthPrefixedCollection`, with the rounds that are left.
unfoldable pub decode_items : (Bytes → Result Error Value) → ℕ → Bytes → Result Error Items
decode_items dec zero rest = ok Items.end
decode_items dec (suc count) rest = do
  (block, rest') ← read_block rest
  v ← decode_generic_field dec block
  vs ← decode_items dec count rest'
  ok (Items.item v vs)

unfoldable pub decode_length_prefixed_collection :
    (Bytes → Result Error Value) → Bytes → Result Error Items
decode_length_prefixed_collection dec payload = do
  reject (ltb (length payload) 4) Error.too_short
  decode_items dec (le_uint 4 payload) (drop 4 payload)

-- The first loop of `decodeRow`: a length for each field.
unfoldable pub read_lengths : Fields → ℕ → Bytes → Bytes → Result Error (List ℕ × Bytes)
read_lengths Fields.end i null_bits rest = ok ([], rest)
read_lengths (Fields.field f fs) i null_bits rest = elim (is_fixed f) [
  | true ↦ do (ns, rest') ← read_lengths fs (i + 1) null_bits rest; ok (fixed_size f ∷ ns, rest')
  | false ↦ elim (null_bit null_bits i) [
    | true ↦ do (ns, rest') ← read_lengths fs (i + 1) null_bits rest; ok (0 ∷ ns, rest')
    | false ↦ do
      reject (ltb (length rest) 4) Error.truncated
      (ns, rest') ← read_lengths fs (i + 1) null_bits (drop 4 rest)
      ok (le_uint 4 rest ∷ ns, rest')
  ]
]

-- What `decodeRow` does around its second loop, which takes the null bits, the lengths and the rest.
unfoldable pub unframe_row :
    Fields → Bytes → Bool → (Bytes → List ℕ → Bytes → Result Error Items) → Result Error Items
unframe_row fs payload indexed loop = do
  validate_schema fs
  let size = null_bits_size (field_count fs)
  reject (ltb (length payload) size) Error.too_short
  let null_bits = take size payload
  let rest = drop size payload
  (ns, rest') ← (if indexed then read_lengths fs 0 null_bits rest else ok ([], rest))
  loop null_bits ns rest'

abbrev pub next_length : List ℕ → ℕ
next_length [] = 0
next_length (n ∷ ns) = n

-- The second loop of `decodeRow` at a field whose value is decoded by `dec`.
unfoldable pub take_field :
    FieldType → Bool → ℕ → Bytes → (Bytes → Result Error Value) → Result Error (Value × Bytes)
take_field f indexed next rest dec = do
  n ← (if indexed then ok next else compacted_field_size f rest)
  reject (ltb (length rest) n) Error.truncated
  v ← dec (take n rest)
  ok (v, drop n rest)
