-- ===== src/Row/Runs.antt =====
-- The row codec at concrete inputs: tests, and the theorems of its modules applied.
use fluss_go_client.Prelude.{
  ◌≡◌, ◌<◌, ◌^◌, ◌++◌, refl, true, false, [], ◌∷◌, none, some, arith, inl, inr, length, take,
}
use fluss_go_client.Prelude.Int.{pos, negsuc}
use fluss_go_client.Row.Value.{Value, Items, Numbers}
use fluss_go_client.Row.Batch.{
  LogBatchOptions, encode_log_batch, encode_log_record, encode_log_record_batch,
}
use fluss_go_client.Row.Unbatch.{decode_log_records, decode_log_record_batch_rows}
use fluss_go_client.Row.Unbatch.Fuel.{RecordsRun, BatchesRun, decode_log_record_batch_rows_ends}
use fluss_go_client.Row.Unbatch.LogRoundTrip.{length-encode_log_batch}
use fluss_go_client.Row.Unbatch.LogRecords.{Segment, stop, batch, decode_log_record_batch_rows_lem}
use fluss_go_client.Row.Decode.{compacted_timestamp_size, decode_decimal, decode_timestamp}
use fluss_go_client.Row.Encode.{encode_timestamp, encode_decimal}
use fluss_go_client.Row.Malformed.{compacted_timestamp_fails, decimal_loses_sign}
use fluss_go_client.Row.RoundTrip.Typed.{TypedFields}
use fluss_go_client.Result.{ok, err}
use fluss_go_client.Bytes.{Bytes}
use fluss_go_client.Row.Types.{FieldType, FieldPtr, Fields, Error, validate_schema}
use fluss_go_client.Row.Encode.{
  encode_row, encode_fields, encode_value, encode_ptr, frame_row, encode_scalar, encode_items,
  encode_generic_field, encode_length_prefixed_collection, deref, null_bits_size, set_null_bit,
  encode_fixed32,
}
use fluss_go_client.Row.Types.{validate_fields, validate, validate_ptr, field_count, is_fixed}
use fluss_go_client.Row.Value.{
  as_bool, as_int8, as_int16, as_int32, as_int64, as_string, as_items, item_count,
}
use fluss_go_client.Bytes.{le_bytes}
use fluss_go_client.Row.Read.{decode_row}
use fluss_go_client.Row.RoundTrip.Indexed.{decode_row-encode_row}
use fluss_go_client.Row.RoundTrip.Total.{encode_row_total}

abbrev pub no_numbers : Numbers
no_numbers = record { to_float32 = λ x. 0; parse_rat = λ s. none }

abbrev order_fields : Fields
order_fields = Fields.field FieldType.int32 (
    Fields.field FieldType.string
      (Fields.field (FieldType.array (FieldPtr.ptr FieldType.int8)) Fields.end))

abbrev order_values : Items
order_values = Items.item (Value.int32 7) (
    Items.item Value.nil (
      Items.item (Value.items (Items.item (Value.int8 255) (Items.item Value.nil Items.end)))
        Items.end))

abbrev order_bytes : Bytes
order_bytes =
    2 ∷ 15 ∷ 0 ∷ 0 ∷ 0 ∷ 7 ∷ 0 ∷ 0 ∷ 0 ∷ 2 ∷ 0 ∷ 0 ∷ 0 ∷ 2 ∷ 0 ∷ 0 ∷ 0 ∷ 0 ∷ 255 ∷ 1 ∷ 0 ∷ 0 ∷ 0 ∷ 1
    ∷ []

order_encoded : encode_row no_numbers order_fields order_values true ≡ ok order_bytes
unfolding encode_row frame_row encode_fields encode_value encode_ptr encode_scalar encode_items
    encode_generic_field encode_length_prefixed_collection deref as_bool as_int8 as_int16 as_int32
    as_int64 as_string as_items validate_schema validate_fields validate validate_ptr field_count
    item_count is_fixed null_bits_size set_null_bit le_bytes encode_fixed32
order_encoded = refl

order_typed : TypedFields order_fields order_values
order_typed = (
  inr (refl, omega arith),
  (inl refl, (inr (refl, (inr (refl, omega arith), (inl refl, tt))), tt)),
)

order_valid : validate_schema order_fields ≡ ok tt
unfolding validate_schema validate_fields validate validate_ptr
order_valid = refl

decode_row-encode_row_example : decode_row order_fields order_bytes true ≡ ok order_values
decode_row-encode_row_example =
    decode_row-encode_row no_numbers order_fields order_values order_bytes order_typed order_encoded
      (omega arith)

encode_row_total_example :
    (bs : Bytes) × (encode_row no_numbers order_fields order_values false ≡ ok bs)
encode_row_total_example =
    encode_row_total no_numbers order_fields order_values false order_valid order_typed

abbrev order_opts : LogBatchOptions
order_opts = record {
  schema_id = 1;
  indexed = true;
  writer_state = some (record { writer_id = 9; batch_sequence = 4 });
}

abbrev order_record : Bytes
order_record = 25 ∷ 0 ∷ 0 ∷ 0 ∷ 0 ∷ order_bytes

abbrev order_batch : Bytes
order_batch = encode_log_batch 1 order_record (some (record { writer_id = 9; batch_sequence = 4 }))

order_batched :
    encode_log_record_batch no_numbers order_fields order_values order_opts ≡ ok order_batch
unfolding encode_log_record_batch encode_log_record le_bytes
order_batched = rw order_encoded refl

order_batch_small : length order_batch < 2 ^ 32
order_batch_small = omega (
  arith,
  length-encode_log_batch 1 order_record (some (record { writer_id = 9; batch_sequence = 4 })),
)

order_segment :
    Segment no_numbers order_fields
      (order_values ∷ order_values ∷ [])
      (order_batch ++ (order_batch ++ []))
order_segment =
    batch order_values (order_values ∷ []) order_opts order_batch (order_batch ++ []) order_typed
      refl order_batched order_batch_small
      (batch order_values [] order_opts order_batch [] order_typed refl order_batched
        order_batch_small stop)

decode_log_record_batch_rows_lem_example :
    decode_log_record_batch_rows order_fields (order_batch ++ (order_batch ++ []))
    ≡ ok (order_values ∷ order_values ∷ [])
decode_log_record_batch_rows_lem_example =
    decode_log_record_batch_rows_lem no_numbers order_fields (order_values ∷ order_values ∷ [])
      (order_batch ++ (order_batch ++ [])) order_segment

decimal_loses_sign_example :
    decode_decimal (pos 20) (pos 2) (encode_decimal (negsuc 4) (pos 20) true) true
    ≡ ok (Value.decimal (some (pos 5)) (pos 2))
decimal_loses_sign_example = decimal_loses_sign (pos 20) (pos 2) 4 refl

compacted_timestamp_fails_example :
    (compacted_timestamp_size (pos 6) (encode_timestamp (5, 7) (pos 6) ++ []) ≡ ok 2)
    × (decode_timestamp (pos 6) (take 2 (encode_timestamp (5, 7) (pos 6) ++ [])) false
        ≡ err Error.too_short)
compacted_timestamp_fails_example = compacted_timestamp_fails (pos 6) 5 7 [] refl (omega arith)

decode_log_record_batch_rows_ends_example :
    RecordsRun order_fields order_record (decode_log_records order_fields order_record)
    × BatchesRun order_fields order_record (decode_log_record_batch_rows order_fields order_record)
decode_log_record_batch_rows_ends_example =
    decode_log_record_batch_rows_ends order_fields order_record
