-- ===== src/Row/Encode.antt =====
-- row.go, from values to bytes: `encodeRow`, `encodeValue`, `encodeCompactedKeyValue` and what they
-- call. The functions that call one another recur on the field type.
use fluss_go_client.Prelude.{
  ℕ, ◌+◌, ◌/◌, ◌%◌, ◌^◌, Bool, true, false, not, ◌&&◌, ◌==◌, if◌then◌else◌, [], ◌∷◌, ◌++◌, length,
  get_or, set, replicate,
}
use Prim.Native.Nat.{bit_or}
use fluss_go_client.Prelude.Int.{ℤ, pos, leb_ℤ}
use fluss_go_client.Result.{Result, ok, err, panic, ◌>>=◌, ◌>>◌, reject, map_error}
use fluss_go_client.Bytes.{Bytes, le_bytes, put_uvarint}
use fluss_go_client.Row.Types.{
  FieldType, FieldPtr, Fields, Error, field_count, is_fixed, validate_schema,
}
use fluss_go_client.Row.Value.{
  Value, Items, Entries, Numbers, is_nil, item_count, entry_count, as_bool, as_int8, as_int16,
  as_int32, as_int64, as_float32, as_float64, as_string, as_bytes, as_decimal, as_timestamp_ntz,
  as_timestamp_ltz, as_items, as_entries,
}
use fluss_go_client.Row.Number.{int64_of, big_bytes}

unfoldable pub null_bits_size : ℕ → ℕ
null_bits_size n = (n + 7) / 8

-- `bits[index/8] |= 1 << uint(index%8)`
unfoldable pub set_null_bit : Bytes → ℕ → Bytes
set_null_bit bits i = set bits (i / 8) (bit_or (get_or bits (i / 8) 0) (2 ^ (i % 8)))

unfoldable pub encode_fixed32 : ℕ → Bytes
encode_fixed32 v = le_bytes 4 v

unfoldable pub encode_fixed64 : ℕ → Bytes
encode_fixed64 v = le_bytes 8 v

unfoldable pub encode_signed_varint32 : ℕ → Bytes
encode_signed_varint32 v = put_uvarint v

unfoldable pub encode_signed_varint64 : ℕ → Bytes
encode_signed_varint64 v = put_uvarint v

unfoldable pub encode_length_prefixed_bytes : Bytes → Bool → Bytes
unfolding encode_signed_varint32
encode_length_prefixed_bytes raw indexed =
    if indexed
    then le_bytes 4 (length raw % 2 ^ 32) ++ raw
    else encode_signed_varint32 (length raw % 2 ^ 32) ++ raw

unfoldable pub encode_bool : Bool → Bytes
encode_bool v = (if v then 1 else 0) ∷ []

unfoldable pub encode_decimal : ℤ → ℤ → Bool → Bytes
unfolding encode_fixed64 encode_length_prefixed_bytes
encode_decimal unscaled precision indexed =
    if leb_ℤ precision (pos 18)
    then encode_fixed64 (int64_of unscaled)
    else encode_length_prefixed_bytes (big_bytes unscaled) indexed

unfoldable pub encode_decimal_compact : ℤ → ℤ → Bytes
unfolding encode_signed_varint64 encode_length_prefixed_bytes
encode_decimal_compact unscaled precision =
    if leb_ℤ precision (pos 18)
    then encode_signed_varint64 (int64_of unscaled)
    else encode_length_prefixed_bytes (big_bytes unscaled) false

-- `encodeTimestampNtz` and `encodeTimestampLtz`, which have the same body; they ignore `indexed`.
unfoldable pub encode_timestamp : ℕ × ℕ → ℤ → Bytes
unfolding encode_fixed64
encode_timestamp (ms, nanos) precision =
    if leb_ℤ precision (pos 3) then encode_fixed64 ms else le_bytes 8 ms ++ le_bytes 4 nanos

-- `encodeCompactedTimestampNtz` and `encodeCompactedTimestampLtz`
unfoldable pub encode_compacted_timestamp : ℕ × ℕ → ℤ → Bytes
unfolding encode_signed_varint64 encode_signed_varint32
encode_compacted_timestamp (ms, nanos) precision =
    if leb_ℤ precision (pos 3)
    then encode_signed_varint64 ms
    else encode_signed_varint64 ms ++ encode_signed_varint32 nanos

abbrev encode_int32 : ℕ → Bool → Bytes
encode_int32 v indexed = if indexed then encode_fixed32 v else encode_signed_varint32 v

abbrev encode_int64 : ℕ → Bool → Bytes
encode_int64 v indexed = if indexed then encode_fixed64 v else encode_signed_varint64 v

module _ (num : Numbers) where
  unfoldable pub encode_compacted_key_value : FieldType → Value → Result Error Bytes
  encode_compacted_key_value FieldType.bool v = do b ← as_bool v; ok (encode_bool b)
  encode_compacted_key_value FieldType.int8 v = do x ← as_int8 v; ok (x ∷ [])
  encode_compacted_key_value FieldType.int16 v = do x ← as_int16 v; ok (le_bytes 2 x)
  encode_compacted_key_value FieldType.int32 v = do x ← as_int32 v; ok (encode_signed_varint32 x)
  encode_compacted_key_value FieldType.int64 v = do x ← as_int64 v; ok (encode_signed_varint64 x)
  encode_compacted_key_value FieldType.float32 v = do x ← as_float32 num v; ok (le_bytes 4 x)
  encode_compacted_key_value FieldType.float64 v = do x ← as_float64 v; ok (encode_fixed64 x)
  encode_compacted_key_value FieldType.string v = do
    s ← as_string v
    ok (encode_length_prefixed_bytes s false)
  encode_compacted_key_value FieldType.bytes v = do
    s ← as_bytes v
    ok (encode_length_prefixed_bytes s false)
  encode_compacted_key_value (FieldType.decimal precision scale) v = do
    u ← as_decimal num scale v
    ok (encode_decimal_compact u precision)
  encode_compacted_key_value FieldType.date v = do x ← as_int32 v; ok (encode_signed_varint32 x)
  encode_compacted_key_value FieldType.time v = do x ← as_int32 v; ok (encode_signed_varint32 x)
  encode_compacted_key_value (FieldType.timestamp_ntz precision) v = do
    t ← as_timestamp_ntz v
    ok (encode_compacted_timestamp t precision)
  encode_compacted_key_value (FieldType.timestamp_ltz precision) v = do
    t ← as_timestamp_ltz v
    ok (encode_compacted_timestamp t precision)
  encode_compacted_key_value _ v = err Error.unsupported_type

  -- The cases of `encodeValue` that do not recur.
  unfoldable pub encode_scalar : FieldType → Value → Bool → Result Error Bytes
  encode_scalar FieldType.bool v indexed = do b ← as_bool v; ok (encode_bool b)
  encode_scalar FieldType.int8 v indexed = do x ← as_int8 v; ok (x ∷ [])
  encode_scalar FieldType.int16 v indexed = do x ← as_int16 v; ok (le_bytes 2 x)
  encode_scalar FieldType.int32 v indexed = do x ← as_int32 v; ok (encode_int32 x indexed)
  encode_scalar FieldType.int64 v indexed = do x ← as_int64 v; ok (encode_int64 x indexed)
  encode_scalar FieldType.float32 v indexed = do x ← as_float32 num v; ok (le_bytes 4 x)
  encode_scalar FieldType.float64 v indexed = do x ← as_float64 v; ok (encode_fixed64 x)
  encode_scalar FieldType.string v indexed = do
    s ← as_string v
    ok (encode_length_prefixed_bytes s indexed)
  encode_scalar FieldType.bytes v indexed = do
    s ← as_bytes v
    ok (encode_length_prefixed_bytes s indexed)
  encode_scalar (FieldType.decimal precision scale) v indexed = do
    u ← as_decimal num scale v
    ok (encode_decimal u precision indexed)
  encode_scalar FieldType.date v indexed = do x ← as_int32 v; ok (encode_int32 x indexed)
  encode_scalar FieldType.time v indexed = do x ← as_int32 v; ok (encode_int32 x indexed)
  encode_scalar (FieldType.timestamp_ntz precision) v indexed = do
    t ← as_timestamp_ntz v
    ok (encode_timestamp t precision)
  encode_scalar (FieldType.timestamp_ltz precision) v indexed = do
    t ← as_timestamp_ltz v
    ok (encode_timestamp t precision)
  encode_scalar _ v indexed = err Error.unsupported_type

-- `encodeGenericField`, over the encoder of its field.
unfoldable pub encode_generic_field : (Value → Result Error Bytes) → Value → Result Error Bytes
encode_generic_field enc v =
    if is_nil v then ok (1 ∷ []) else (do payload ← enc v; ok (0 ∷ payload))

-- The loop of `encodeLengthPrefixedCollection`, over what is written so far.
unfoldable pub encode_items : (Value → Result Error Bytes) → Items → Bytes → Result Error Bytes
encode_items enc Items.end buf = ok buf
encode_items enc (Items.item v vs) buf = do
  payload ← encode_generic_field enc v
  encode_items enc vs (buf ++ (le_bytes 4 (length payload % 2 ^ 32) ++ payload))

unfoldable pub encode_length_prefixed_collection :
    (Value → Result Error Bytes) → Items → Result Error Bytes
encode_length_prefixed_collection enc vs = encode_items enc vs (le_bytes 4 (item_count vs % 2 ^ 32))

-- The loop of `encodeMap`.
unfoldable pub encode_entries :
    (Value → Result Error Bytes)
    → (Value → Result Error Bytes)
    → Entries
    → Bytes
    → Result Error Bytes
encode_entries enc_key enc_value Entries.stop buf = ok buf
encode_entries enc_key enc_value (Entries.entry k v es) buf = do
  key ← encode_generic_field enc_key k
  payload ← encode_generic_field enc_value v
  encode_entries enc_key enc_value es (
      buf
      ++ (le_bytes 4 (length key % 2 ^ 32)
          ++ (key ++ (le_bytes 4 (length payload % 2 ^ 32) ++ payload))))

-- `*field.Element`
unfoldable pub deref : FieldPtr → Result Error Unit
deref FieldPtr.nil = panic
deref (FieldPtr.ptr t) = ok tt

-- What `encodeRow` does around its loop, whose null bits, variable lengths and payload are `loop`.
unfoldable pub frame_row :
    Fields → Items → Bool → Result Error (Bytes × Bytes × Bytes) → Result Error Bytes
frame_row fs vs indexed loop = do
  validate_schema fs
  reject (not (item_count vs == field_count fs)) Error.value_count
  (null_bits, lengths, payload) ← loop
  ok (null_bits ++ ((if indexed then lengths else []) ++ payload))

abbrev pub empty_null_bits : Items → Bytes
empty_null_bits vs = replicate (null_bits_size (item_count vs)) 0

unfoldable mutual
  pub encode_value : Numbers → FieldType → Value → Bool → Result Error Bytes
  encode_value num (FieldType.array p) v indexed = do
    vs ← as_items v
    deref p
    encode_length_prefixed_collection (λ x. encode_ptr num p x true) vs
  encode_value num (FieldType.map k e) v indexed = do
    es ← as_entries v
    encode_entries (λ x. encode_ptr num k x true) (λ x. encode_ptr num e x true) es
        (le_bytes 4 (entry_count es % 2 ^ 32))
  encode_value num (FieldType.row fs) v indexed = do
    vs ← as_items v
    frame_row fs vs indexed (encode_fields num fs vs indexed 0 (empty_null_bits vs) [] [])
  encode_value num f v indexed = encode_scalar num f v indexed

  pub encode_ptr : Numbers → FieldPtr → Value → Bool → Result Error Bytes
  encode_ptr num FieldPtr.nil v indexed = panic
  encode_ptr num (FieldPtr.ptr t) v indexed = encode_value num t v indexed

  -- The loop of `encodeRow` at field `i`.
  pub encode_fields :
      Numbers
      → Fields
      → Items
      → Bool
      → ℕ
      → Bytes
      → Bytes
      → Bytes
      → Result Error (Bytes × Bytes × Bytes)
  encode_fields num Fields.end vs indexed i null_bits lengths payload =
      ok (null_bits, lengths, payload)
  encode_fields num (Fields.field f fs) Items.end indexed i null_bits lengths payload = panic
  encode_fields num (Fields.field f fs) (Items.item v vs) indexed i null_bits lengths payload =
      elim (is_nil v) [
        | true ↦ encode_fields num fs vs indexed (i + 1) (set_null_bit null_bits i) lengths payload
        | false ↦ do
          encoded ← map_error (Error.at_field i) (encode_value num f v indexed)
          encode_fields num fs vs indexed (i + 1) null_bits
              (if indexed && not (is_fixed f)
                then lengths ++ le_bytes 4 (length encoded % 2 ^ 32)
                else lengths)
              (payload ++ encoded)
      ]

unfoldable pub encode_row : Numbers → Fields → Items → Bool → Result Error Bytes
encode_row num fs vs indexed =
    frame_row fs vs indexed (encode_fields num fs vs indexed 0 (empty_null_bits vs) [] [])
