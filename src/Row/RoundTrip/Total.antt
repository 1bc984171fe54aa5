-- ===== src/Row/RoundTrip/Total.antt =====
-- row.go: encodeRow on typed values, in both formats.
use fluss_go_client.Prelude.{
  ℕ, suc, ◌+◌, ◌%◌, ◌^◌, ◌≡◌, refl, ap, Bool, true, not, ◌&&◌, ==_refl, if◌then◌else◌, [], ◌∷◌,
  ◌++◌, length, inl, inr, some,
}
use fluss_go_client.Result.{Result, ok, map_error, >>=-eq-ok, map_error-eq-ok}
use fluss_go_client.Bytes.{Bytes, le_bytes}
use fluss_go_client.Row.Types.{
  FieldType, FieldPtr, Fields, Error, field_count, is_fixed, validate, validate_ptr,
  validate_fields, validate_schema,
}
use fluss_go_client.Row.Value.{
  Value, Items, Numbers, item_count, as_items, as_bool, as_int8, as_int16, as_int32, as_int64,
  as_float32, as_float64, as_string, as_bytes, as_timestamp_ntz, as_timestamp_ltz,
}
use fluss_go_client.Row.Encode.{
  set_null_bit, frame_row, empty_null_bits, deref, encode_value, encode_ptr, encode_fields,
  encode_row, encode_scalar, encode_generic_field, encode_items, encode_length_prefixed_collection,
}
use fluss_go_client.Row.RoundTrip.Typed.{
  Typed, TypedPtr, TypedFields, ScalarTyped, Nullable, AllItems, AllItems-map,
}
use fluss_go_client.Row.RoundTrip.Scalars.{encode_scalar_decimal}
use fluss_go_client.Row.RoundTrip.Rows.{Loop}

abbrev pub Succeeds : {A : Type 0} → Result Error A → Type 0
Succeeds {A} r = (a : A) × (r ≡ ok a)

scalar-Succeeds :
    (num : Numbers) (f : FieldType) (v : Value) (indexed : Bool)
    → ScalarTyped f v
    → Succeeds (encode_scalar num f v indexed)
unfolding encode_scalar as_bool as_int8 as_int16 as_int32 as_int64 as_float32 as_float64 as_string
    as_bytes as_timestamp_ntz as_timestamp_ltz
scalar-Succeeds num FieldType.bool (Value.bool b) indexed h = (_, refl)
scalar-Succeeds num FieldType.int8 (Value.int8 v) indexed h = (_, refl)
scalar-Succeeds num FieldType.int16 (Value.int16 v) indexed h = (_, refl)
scalar-Succeeds num FieldType.int32 (Value.int32 v) indexed h = (_, refl)
scalar-Succeeds num FieldType.int64 (Value.int64 v) indexed h = (_, refl)
scalar-Succeeds num FieldType.float32 (Value.float32 v) indexed h = (_, refl)
scalar-Succeeds num FieldType.float64 (Value.float64 v) indexed h = (_, refl)
scalar-Succeeds num FieldType.string (Value.string s) indexed h = (_, refl)
scalar-Succeeds num FieldType.bytes (Value.bytes s) indexed h = (_, refl)
scalar-Succeeds num FieldType.date (Value.int32 v) indexed h = (_, refl)
scalar-Succeeds num FieldType.time (Value.int32 v) indexed h = (_, refl)
scalar-Succeeds num (FieldType.decimal p scale) (Value.decimal (some z) s) indexed h =
    (_, encode_scalar_decimal num p scale s z indexed h.0)
scalar-Succeeds num (FieldType.timestamp_ntz p) (Value.timestamp_ntz ms nanos) indexed h = (_, refl)
scalar-Succeeds num (FieldType.timestamp_ltz p) (Value.timestamp_ltz ms nanos) indexed h = (_, refl)
scalar-Succeeds num _ _ indexed h = absurd h

module _ (enc : Value → Result Error Bytes) where
  generic-Succeeds :
      (v : Value) → Nullable (λ x. Succeeds (enc x)) v → Succeeds (encode_generic_field enc v)
  unfolding encode_generic_field
  generic-Succeeds v (inl n) = (1 ∷ [], rw n)
  generic-Succeeds v (inr (n, (bs, e))) = (0 ∷ bs, rw n (rw e))

  items_succeed :
      (vs : Items) (buf : Bytes)
      → AllItems (Nullable (λ x. Succeeds (enc x))) vs
      → Succeeds (encode_items enc vs buf)
  unfolding encode_items
  items_succeed Items.end buf t = (buf, refl)
  items_succeed (Items.item v vs) buf t =
      let (payload, e) = generic-Succeeds v t.0 in
      let (out, e') =
        items_succeed vs (buf ++ (le_bytes 4 (length payload % 2 ^ 32) ++ payload)) t.1 in
      (out, rw e e')

frame-Succeeds :
    (fs : Fields) (vs : Items) (indexed : Bool) (loop : Result Error Loop)
    → validate_schema fs ≡ ok tt
    → item_count vs ≡ field_count fs
    → Succeeds loop
    → Succeeds (frame_row fs vs indexed loop)
unfolding frame_row
frame-Succeeds fs vs indexed loop valid count (out, e) = (
  out.0 ++ ((if indexed then out.1 else []) ++ out.2),
  rw valid (rw count (rw (==_refl (field_count fs)) (rw e))),
)

typed_count : (fs : Fields) (vs : Items) → TypedFields fs vs → item_count vs ≡ field_count fs
unfolding item_count field_count
typed_count Fields.end Items.end t = refl
typed_count Fields.end (Items.item v vs) t = absurd t
typed_count (Fields.field f fs) Items.end t = absurd t
typed_count (Fields.field f fs) (Items.item v vs) t = ap suc (typed_count fs vs t.1)

-- What a valid composite type says of its parts.
valid_field :
    (wrap : ℕ → Error → Error) (i : ℕ) (f : FieldType) (fs : Fields)
    → validate_fields wrap i (Fields.field f fs) ≡ ok tt
    → (validate f ≡ ok tt) × (validate_fields wrap (i + 1) fs ≡ ok tt)
unfolding validate_fields
valid_field wrap i f fs e =
    let (u, e1, e2) = >>=-eq-ok (map_error (wrap i) (validate f)) _ e in
    (map_error-eq-ok (wrap i) (validate f) e1, e2)

-- Where a field stands, and how its error is wrapped, does not matter.
valid_anywhere :
    (wrap wrap' : ℕ → Error → Error) (i j : ℕ) (fs : Fields)
    → validate_fields wrap i fs ≡ ok tt
    → validate_fields wrap' j fs ≡ ok tt
unfolding validate_fields
valid_anywhere wrap wrap' i j Fields.end e = refl
valid_anywhere wrap wrap' i j (Fields.field f fs) e =
    let (e1, e2) = valid_field wrap i f fs e in
    rw e1 (valid_anywhere wrap wrap' (i + 1) (j + 1) fs e2)

valid_array :
    (p : FieldPtr)
    → validate (FieldType.array p) ≡ ok tt
    → (deref p ≡ ok tt) × (validate_ptr p ≡ ok tt)
unfolding validate deref
valid_array FieldPtr.nil e = cc
valid_array (FieldPtr.ptr f) e = (refl, e)

valid_row : (fs : Fields) → validate (FieldType.row fs) ≡ ok tt → validate_schema fs ≡ ok tt
unfolding validate validate_schema
valid_row fs e = valid_anywhere Error.at_row_field Error.at_field 0 0 fs e

valid_fields_of :
    (fs : Fields) → validate_schema fs ≡ ok tt → validate_fields Error.at_field 0 fs ≡ ok tt
unfolding validate_schema
valid_fields_of fs e = e

array-Succeeds :
    (num : Numbers) (p : FieldPtr) (vs : Items) (indexed : Bool)
    → deref p ≡ ok tt
    → AllItems (Nullable (λ x. Succeeds (encode_ptr num p x true))) vs
    → Succeeds (encode_value num (FieldType.array p) (Value.items vs) indexed)
unfolding encode_value as_items encode_length_prefixed_collection
array-Succeeds num p vs indexed d t =
    let (bs, e) =
      items_succeed (λ x. encode_ptr num p x true) vs (le_bytes 4 (item_count vs % 2 ^ 32)) t in
    (bs, rw d e)

mutual
  unfolding encode_value encode_ptr encode_fields as_items validate_ptr

  value-Succeeds :
      (num : Numbers) (f : FieldType) (v : Value) (indexed : Bool)
      → validate f ≡ ok tt
      → Typed f v
      → Succeeds (encode_value num f v indexed)
  value-Succeeds num (FieldType.array p) (Value.items vs) indexed e t =
      array-Succeeds num p vs indexed (valid_array p e).0
        (AllItems-map (λ v h. ptr-Succeeds num p v true (valid_array p e).1 h) vs t)
  value-Succeeds num (FieldType.array p) _ indexed e t = absurd t
  value-Succeeds num (FieldType.row fs) (Value.items vs) indexed e t =
      frame-Succeeds fs vs indexed (encode_fields num fs vs indexed 0 (empty_null_bits vs) [] [])
        (valid_row fs e) (typed_count fs vs t)
        (fields_succeed num fs vs indexed 0 (empty_null_bits vs) [] [] Error.at_field 0
          (valid_fields_of fs (valid_row fs e)) t)
  value-Succeeds num (FieldType.row fs) _ indexed e t = absurd t
  value-Succeeds num (FieldType.map k e) v indexed h t = absurd t
  value-Succeeds num f v indexed e t = scalar-Succeeds num f v indexed t

  ptr-Succeeds :
      (num : Numbers) (p : FieldPtr) (v : Value) (indexed : Bool)
      → validate_ptr p ≡ ok tt
      → TypedPtr p v
      → Succeeds (encode_ptr num p v indexed)
  ptr-Succeeds num FieldPtr.nil v indexed e t = absurd t
  ptr-Succeeds num (FieldPtr.ptr f) v indexed e t = value-Succeeds num f v indexed e t

  fields_succeed :
      (num : Numbers) (fs : Fields) (vs : Items) (indexed : Bool) (i : ℕ)
      (bits lengths payload : Bytes) (wrap : ℕ → Error → Error) (k : ℕ)
      → validate_fields wrap k fs ≡ ok tt
      → TypedFields fs vs
      → Succeeds (encode_fields num fs vs indexed i bits lengths payload)
  fields_succeed num Fields.end Items.end indexed i bits lengths payload wrap k e t = (_, refl)
  fields_succeed num Fields.end (Items.item v vs) indexed i bits lengths payload wrap k e t =
      absurd t
  fields_succeed num (Fields.field f fs) Items.end indexed i bits lengths payload wrap k e t =
      absurd t
  fields_succeed num (Fields.field f fs) (Items.item v vs) indexed i bits lengths payload wrap k e
        (inl n, ts) =
      rw n (
        fields_succeed num fs vs indexed (i + 1) (set_null_bit bits i) lengths payload wrap (k + 1)
          (valid_field wrap k f fs e).1 ts)
  fields_succeed num (Fields.field f fs) (Items.item v vs) indexed i bits lengths payload wrap k e
        (inr (n, t), ts) =
      let (block, eb) = value-Succeeds num f v indexed (valid_field wrap k f fs e).0 t in
      let lengths' =
        if indexed && not (is_fixed f)
        then lengths ++ le_bytes 4 (length block % 2 ^ 32)
        else lengths in
      let (out, eo) =
        fields_succeed num fs vs indexed (i + 1) bits lengths' (payload ++ block) wrap (k + 1)
          (valid_field wrap k f fs e).1 ts in
      (out, rw (n, encode_fields) (rw eb eo))

-- Under a valid schema, encoding values that are nil or of their fields' own Go types ends in bytes,
-- with no error and no panic, in both formats. Left out are maps, decimals without an unscaled number
-- or of another scale than the field's, decimals of up to 18 digits outside an int64, negative
-- decimals of more than 18 digits, and timestamps of up to 3 digits with nanoseconds.
pub encode_row_total :
    (num : Numbers) (fs : Fields) (vs : Items) (indexed : Bool)
    → validate_schema fs ≡ ok tt
    → TypedFields fs vs
    → (bs : Bytes) × (encode_row num fs vs indexed ≡ ok bs)
unfolding encode_row
encode_row_total num fs vs indexed e t =
    frame-Succeeds fs vs indexed (encode_fields num fs vs indexed 0 (empty_null_bits vs) [] []) e
      (typed_count fs vs t)
      (fields_succeed num fs vs indexed 0 (empty_null_bits vs) [] [] Error.at_field 0
        (valid_fields_of fs e) t)
