-- ===== src/Row/Types.antt =====
-- types.go: field types, schemas and their validation. A `FieldType` struct is read by its `Kind`, so
-- it is a constructor for each kind with the fields which the codec reads for that kind; `nil` is a
-- missing `Element`, `Key` or `Value`.
use fluss_go_client.Prelude.{ℕ, suc, ◌+◌, Bool, true, false, ◌&&◌, ◌||◌}
use fluss_go_client.Prelude.Int.{ℤ, pos, ltb_ℤ, leb_ℤ}
use fluss_go_client.Result.{Result, ok, err, ◌>>◌, reject, map_error}

mutual
  pub data FieldType : Type 0 where
    bool int8 int16 int32 int64 float32 float64 string bytes date time : FieldType
    decimal : ℤ → ℤ → FieldType
    timestamp_ntz timestamp_ltz : ℤ → FieldType
    array : FieldPtr → FieldType
    map : FieldPtr → FieldPtr → FieldType
    row : Fields → FieldType
    unsupported : FieldType

  pub data FieldPtr : Type 0 where
    nil : FieldPtr
    ptr : FieldType → FieldPtr

  -- `[]FieldType`, and `Schema`, which is a struct around it.
  pub data Fields : Type 0 where
    end : Fields
    field : FieldType → Fields → Fields

-- The errors of row.go and types.go, without the texts.
pub data Error : Type 0 where
  value_count key_required key_out_of_range wrong_type bad_decimal unsupported_type : Error
  bad_precision bad_scale bad_timestamp_precision missing_element missing_key_value : Error
  too_short truncated invalid_varint not_implemented no_fields : Error
  bad_magic bad_crc bad_attributes bad_size empty : Error
  at_field at_row_field : ℕ → Error → Error

unfoldable pub field_count : Fields → ℕ
field_count end = 0
field_count (field f fs) = suc (field_count fs)

unfoldable pub is_fixed : FieldType → Bool
is_fixed FieldType.string = false
is_fixed FieldType.bytes = false
is_fixed (FieldType.decimal length scale) = ltb_ℤ (pos 0) length && leb_ℤ length (pos 18)
is_fixed (FieldType.timestamp_ntz length) = leb_ℤ (pos 0) length && leb_ℤ length (pos 3)
is_fixed (FieldType.timestamp_ltz length) = leb_ℤ (pos 0) length && leb_ℤ length (pos 3)
is_fixed (FieldType.array p) = false
is_fixed (FieldType.map k v) = false
is_fixed (FieldType.row fs) = false
is_fixed FieldType.unsupported = false
is_fixed _ = true

abbrev is_null_ptr : FieldPtr → Bool
is_null_ptr FieldPtr.nil = true
is_null_ptr (FieldPtr.ptr t) = false

abbrev validate_timestamp : ℤ → Result Error Unit
validate_timestamp length =
    reject (ltb_ℤ length (pos 0) || ltb_ℤ (pos 9) length) Error.bad_timestamp_precision

unfoldable mutual
  pub validate : FieldType → Result Error Unit
  validate (FieldType.decimal length scale) = do
    reject (leb_ℤ length (pos 0)) Error.bad_precision
    reject (ltb_ℤ scale (pos 0) || ltb_ℤ length scale) Error.bad_scale
  validate (FieldType.timestamp_ntz length) = validate_timestamp length
  validate (FieldType.timestamp_ltz length) = validate_timestamp length
  validate (FieldType.array p) = do reject (is_null_ptr p) Error.missing_element; validate_ptr p
  validate (FieldType.map k v) = do
    reject (is_null_ptr k || is_null_ptr v) Error.missing_key_value
    validate_ptr k
    validate_ptr v
  validate (FieldType.row fs) = validate_fields Error.at_row_field 0 fs
  validate FieldType.unsupported = err Error.unsupported_type
  validate _ = ok tt

  pub validate_ptr : FieldPtr → Result Error Unit
  validate_ptr FieldPtr.nil = Result.panic
  validate_ptr (FieldPtr.ptr t) = validate t

  pub validate_fields : (ℕ → Error → Error) → ℕ → Fields → Result Error Unit
  validate_fields wrap i Fields.end = ok tt
  validate_fields wrap i (Fields.field f fs) = do
    map_error (wrap i) (validate f)
    validate_fields wrap (i + 1) fs

-- Schema.Validate
unfoldable pub validate_schema : Fields → Result Error Unit
unfolding validate_fields
validate_schema fs = validate_fields Error.at_field 0 fs
