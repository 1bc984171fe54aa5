-- ===== src/Snapshot/Runs.antt =====
-- The snapshot reader at concrete inputs.
use fluss_go_client.Prelude.{◌≡◌, refl, true, false, none, some, List, [], ◌∷◌, ◌++◌, inr, arith}
use fluss_go_client.Result.{ok}
use fluss_go_client.Bytes.{Bytes, le_bytes}
use fluss_go_client.Bytes.Equal.{bytes_eq}
use fluss_go_client.Row.Types.{
  FieldType, Fields, validate_schema, validate_fields, validate, validate_ptr, field_count,
  is_fixed,
}
use fluss_go_client.Row.Value.{Value, Items, Numbers, item_count, as_int8, as_string}
use fluss_go_client.Row.Encode.{
  encode_row, frame_row, encode_fields, encode_value, encode_ptr, encode_scalar,
  encode_length_prefixed_bytes, set_null_bit, null_bits_size, encode_fixed32,
}
use fluss_go_client.Prelude.Maps.{find, put}
use fluss_go_client.Snapshot.{
  DecodePlan, Reader, same_columns, lookup_plan, decode_value, read_all, project_row, project_loop,
  index_by_name, item_at,
}
use fluss_go_client.Snapshot.Projection.{values_by_name, last_value, project_row-values_by_name}
use fluss_go_client.Snapshot.Plans.{read_each, read_all-read_each}
use fluss_go_client.Snapshot.Stored.{requested, decode_value-encode_row}

abbrev id_name : Bytes
id_name = b'i' ∷ []

abbrev tag_name : Bytes
tag_name = b't' ∷ []

-- Columns i and t, of which t and a column that is missing are asked for.
abbrev plan : DecodePlan
plan = record {
  decode_schema = Fields.field FieldType.int8 (Fields.field FieldType.string Fields.end);
  target_schema = Fields.field FieldType.string (Fields.field FieldType.int8 Fields.end);
  source_columns = id_name ∷ (tag_name ∷ []);
  target_columns = tag_name ∷ ((b'x' ∷ []) ∷ []);
}

abbrev stored_row : Items
stored_row = Items.item (Value.int8 7) (Items.item (Value.string (97 ∷ [])) Items.end)

abbrev reader : Reader Unit
reader = record { load_plan = some (λ id. ok plan); indexed = true }

twice_named :
    project_row stored_row (id_name ∷ (id_name ∷ [])) (id_name ∷ [])
    ≡ Items.item (Value.string (97 ∷ [])) Items.end
unfolding project_row project_loop index_by_name item_at find put bytes_eq
twice_named = refl

project_row-values_by_name_example :
    project_row stored_row (id_name ∷ (tag_name ∷ [])) (tag_name ∷ [])
    ≡ values_by_name (id_name ∷ (tag_name ∷ [])) stored_row (tag_name ∷ [])
project_row-values_by_name_example =
    project_row-values_by_name stored_row (id_name ∷ (tag_name ∷ [])) (tag_name ∷ [])

abbrev stored_bytes : Bytes
stored_bytes = 0 ∷ 5 ∷ 0 ∷ 0 ∷ 0 ∷ 7 ∷ 1 ∷ 0 ∷ 0 ∷ 0 ∷ 97 ∷ []

abbrev no_numbers : Numbers
no_numbers = record { to_float32 = λ x. 0; parse_rat = λ s. none }

row_encoded : encode_row no_numbers plan.decode_schema stored_row true ≡ ok stored_bytes
unfolding encode_row frame_row encode_fields encode_value encode_ptr encode_scalar as_int8 as_string
    validate_schema validate_fields validate validate_ptr field_count item_count is_fixed
    set_null_bit le_bytes null_bits_size encode_fixed32 encode_length_prefixed_bytes
row_encoded = refl

plan_loaded : (lookup_plan reader [] 5).1 ≡ ok (some plan)
unfolding lookup_plan find
plan_loaded = refl

decode_value-encode_row_example :
    (decode_value reader [] (le_bytes 2 5 ++ stored_bytes)).1 ≡ ok (requested plan stored_row)
decode_value-encode_row_example =
    decode_value-encode_row reader [] no_numbers 5 plan stored_row stored_bytes (omega arith) refl
      plan_loaded (inr (refl, omega arith), (inr (refl, tt), tt)) row_encoded (omega arith)

requested_test :
    requested plan stored_row ≡ Items.item (Value.string (97 ∷ [])) (Items.item Value.nil Items.end)
unfolding requested same_columns values_by_name last_value bytes_eq
requested_test = refl

abbrev two_values : List Bytes
two_values = (5 ∷ (0 ∷ stored_bytes)) ∷ ((5 ∷ (0 ∷ stored_bytes)) ∷ [])

read_all-read_each_example :
    (read_all reader [] false two_values).1 ≡ read_each reader [] false two_values
read_all-read_each_example = read_all-read_each reader [] false two_values
