-- ===== src/Rows/Runs.antt =====
-- The row API at the cluster of the table client's runs.
mod Scans
use fluss_go_client.Prelude.{◌≡◌, ◌≢◌, refl, Bool, Option, none, some, ◌⊎◌, inr, [], ◌∷◌, arith}
use fluss_go_client.Prelude.Int.{pos}
use fluss_go_client.Prelude.Maps.{find, put}
use fluss_go_client.Result.{ok, err}
use fluss_go_client.Bytes.{Bytes, le_bytes}
use fluss_go_client.Bytes.Equal.{bytes_eq}
use fluss_go_client.Text.{codes, to_upper}
use fluss_go_client.Format.{format_d, digits_loop}
use fluss_go_client.Row.Types.{
  FieldType, Fields, validate_schema, validate_fields, validate, validate_ptr, field_count,
  is_fixed,
}
use fluss_go_client.Row.Value.{Value, Items, Numbers, item_count, as_int8}
use fluss_go_client.Row.Encode.{
  encode_row, frame_row, encode_fields, encode_value, encode_ptr, encode_scalar, null_bits_size,
  encode_compacted_key_value,
}
use fluss_go_client.Row.Batch.{encode_lookup_key, encode_key_columns, key_column, field_at}
use fluss_go_client.Metadata.Cache.{
  address, path_eq, route_key, upsert_server, server, set_table, table, set_route, route,
}
use fluss_go_client.Metadata.TableDescriptor.{
  TableDescriptor, parse_table_descriptor, parse_table_properties,
}
use fluss_go_client.Client.{route_for}
use fluss_go_client.Table.Send.{add_to_group, bucket_api_error}
use fluss_go_client.Table.Send.Routes.{ensure_table_info, table_route_for, group_by_leader}
use fluss_go_client.Table.Sample.{path, cache, lost_leader, quiet_net}
use fluss_go_client.Table.Read.{
  LookupBucketValues, PbLookupRespForBucket, build_lookup_bucket, parse_lookup_results,
}
use fluss_go_client.Table.Read.Calls.{Reads, gather, read_leaders, lookup}
use fluss_go_client.Rows.{
  Row, key_columns_by_name, index_of, is_indexed, equal_fold, normalize_target_columns,
}
use fluss_go_client.Rows.Encoding.{
  KvEncoding, Compression, encoding_of, kv_encoding, compression_of,
}
use fluss_go_client.Rows.Lookups.{lookup_keys, lookup_rows}
use fluss_go_client.Rows.Keys.{KeyColumns, key_columns_by_name-KeyColumns}
use fluss_go_client.Rows.Targets.{AreAll, columns_from, normalize_target_columns_lem}
use fluss_go_client.Rows.Stored.{IsStored, lookup_rows-AreStored}

abbrev id_name : Bytes
id_name = b'i' ∷ []

abbrev tag_name : Bytes
tag_name = b't' ∷ []

key_columns_by_name-KeyColumns_example :
    KeyColumns
      (tag_name ∷ (id_name ∷ []))
      (id_name ∷ [])
      (key_columns_by_name (tag_name ∷ (id_name ∷ [])) (id_name ∷ []))
key_columns_by_name-KeyColumns_example =
    key_columns_by_name-KeyColumns (tag_name ∷ (id_name ∷ [])) (id_name ∷ [])

second_column : key_columns_by_name (tag_name ∷ (id_name ∷ [])) (id_name ∷ []) ≡ ok (1 ∷ [])
unfolding key_columns_by_name index_of bytes_eq
second_column = refl

lower_case : compression_of (codes "zstd") ≡ ok Compression.zstd
unfolding compression_of to_upper bytes_eq
lower_case = refl

-- A table with one column, its key.
abbrev unmarshal : Bytes → Option TableDescriptor
unmarshal text = some (record {
  columns = id_name ∷ [];
  primary_key = id_name ∷ [];
  partition_key = [];
  bucket_key = [];
  properties = none;
})

abbrev no_numbers : Numbers
no_numbers = record { to_float32 = λ x. 0; parse_rat = λ s. none }

abbrev schema : Fields
schema = Fields.field FieldType.int8 Fields.end

abbrev row : Row
row = record { schema = schema; values = Items.item (Value.int8 7) Items.end }

abbrev other_row : Row
other_row = record { schema = schema; values = Items.item (Value.int8 8) Items.end }

abbrev encoding : KvEncoding
encoding = record { schema_id = pos 1; key_columns = 0 ∷ []; indexed = Bool.true }

opened : kv_encoding quiet_net [] path unmarshal no_numbers (tt, cache) ≡ ((tt, cache), ok encoding)
unfolding kv_encoding encoding_of ensure_table_info table set_route upsert_server set_table put find
    path_eq bytes_eq parse_table_descriptor parse_table_properties key_columns_by_name index_of
    is_indexed equal_fold to_upper
opened = refl

keyed :
    lookup_keys no_numbers (pos 0 ∷ []) 0 (row ∷ (other_row ∷ [])) ≡ ok ((7 ∷ []) ∷ ((8 ∷ []) ∷ []))
unfolding lookup_keys encode_lookup_key encode_key_columns key_column field_at
    encode_compacted_key_value as_int8
keyed = refl

-- The first row is stored, the second one is not there.
abbrev answer : PbLookupRespForBucket
answer = record {
  partition_id = none;
  bucket_id = some (pos 1);
  error_code = none;
  error_message = none;
  values = some (5 ∷ 0 ∷ 0 ∷ 7 ∷ []) ∷ (none ∷ []);
}

abbrev calls : Reads (Unit {0})
calls = record {
  lookup = λ w addr req. (w, ok (answer ∷ []));
  prefix_lookup = λ w addr req. (w, err lost_leader);
  fetch_log = λ w addr req. (w, err lost_leader);
  limit_scan = λ w addr req. (w, err lost_leader);
  walk_lookups = λ g. g;
  walk_fetches = λ g. g;
}

abbrev values : LookupBucketValues
values = record {
  partition_id = none;
  bucket_id = pos 1;
  values = some (5 ∷ 0 ∷ 0 ∷ 7 ∷ []) ∷ (none ∷ []);
}

looked_up :
    lookup quiet_net [] path calls
      (tt, cache)
      (record { partition_id = none; bucket_id = pos 1; keys = (7 ∷ []) ∷ ((8 ∷ []) ∷ []) } ∷ [])
      none
      none
      none
    ≡ ((tt, cache), ok (values ∷ []))
unfolding lookup read_leaders gather ensure_table_info group_by_leader table_route_for route_for
    route server table set_route upsert_server set_table find put path_eq route_key format_d
    digits_loop bytes_eq address add_to_group build_lookup_bucket parse_lookup_results
    bucket_api_error
looked_up = refl

row_encoded : encode_row no_numbers schema row.values Bool.true ≡ ok (0 ∷ 7 ∷ [])
unfolding encode_row frame_row encode_fields encode_value encode_ptr encode_scalar as_int8
    validate_schema validate_fields validate validate_ptr field_count item_count is_fixed
    null_bits_size
row_encoded = refl

row-IsStored : IsStored no_numbers schema (5 ∷ 0 ∷ 0 ∷ 7 ∷ []) row.values
unfolding le_bytes
row-IsStored = record {
  id = 5;
  bytes = 0 ∷ 7 ∷ [];
  made = refl;
  typed = (inr (refl, omega arith), tt);
  encoded = row_encoded;
  short = omega arith;
}

lookup_rows-AreStored_example :
    lookup_rows quiet_net [] path calls unmarshal no_numbers
      (tt, cache)
      (pos 1)
      schema
      (row ∷ (other_row ∷ []))
      (pos 0 ∷ [])
    ≡ ((tt, cache), ok (some row.values ∷ (none ∷ [])))
lookup_rows-AreStored_example =
    lookup_rows-AreStored quiet_net [] path calls unmarshal no_numbers (tt, cache) (tt, cache)
      (tt, cache) (pos 1) schema (row ∷ (other_row ∷ [])) (pos 0 ∷ []) encoding
      ((7 ∷ []) ∷ ((8 ∷ []) ∷ [])) values (some row.values ∷ (none ∷ [])) opened refl keyed
      looked_up refl (row-IsStored, tt)
