-- ===== src/Rows/Encoding.antt =====
-- client/row.go: rows that are written. `Net` finds the table; AppendLog and UpsertKV, json.Unmarshal of a
-- table descriptor and the encoder of Arrow batches are parameters.
use fluss_go_client.Prelude.{ℕ, suc, ◌==◌, not, Bool, true, false, Option, none, List, [], ◌∷◌, map}
use fluss_go_client.Prelude.Int.{ℤ, pos, negsuc}
use fluss_go_client.Result.{Result, ok, err, panic, ◌>>=◌, ◌>>◌, reject, map_error}
use fluss_go_client.Bytes.{Bytes}
use fluss_go_client.Bytes.Equal.{bytes_eq}
use fluss_go_client.Text.{codes, to_upper}
use fluss_go_client.Row.Types
use fluss_go_client.Row.Types.{Fields, field_count, validate_schema}
use fluss_go_client.Row.Value.{Items, Numbers}
use fluss_go_client.Row.Batch.{
  KvBatchOptions, encode_log_record_batch, encode_kv_record_batch, encode_kv_delete_record_batch,
}
use fluss_go_client.Writer.Options.{BucketRecordBatch}
use fluss_go_client.Metadata.Cache.{TablePath, TableInfo, Cache}
use fluss_go_client.Metadata.TableDescriptor.{
  TableDescriptor, parse_table_descriptor, parse_table_properties,
}
use fluss_go_client.Table.Retry.{ProduceResult, WriteError}
use fluss_go_client.Table.Send.{Net}
use fluss_go_client.Table.Send.Routes.{ensure_table_info}
use fluss_go_client.Table.Upsert.{PutResult}
use fluss_go_client.Rows.{
  Row, Error, key_columns_by_name, normalize_target_columns, property, is_indexed, bits_of,
}
use fluss_go_client.Rows.Decoding.{of_codec}

-- The results of `kvEncoding`.
pub record KvEncoding : Type 0 where
  pub schema_id : ℤ
  pub key_columns : List ℕ
  pub indexed : Bool

-- AppendLog and UpsertKV on a state.
pub record Writes (S : Type 0) : Type 0 where
  pub append_log : S → ℤ → ℤ → List BucketRecordBatch → S × (List ProduceResult × Option WriteError)
  pub upsert_kv :
      S
      → ℤ
      → ℤ
      → List ℤ
      → Option ℤ
      → List BucketRecordBatch
      → S × (List PutResult × Option WriteError)

-- How AppendArrowRows compresses.
pub data Compression : Type 0 where
  zstd lz4 no_compression : Compression

module _ (unmarshal : Bytes → Option TableDescriptor) where
  -- `kvEncoding` behind ensureTableInfo.
  unfoldable pub encoding_of : TableInfo → Result Error KvEncoding
  encoding_of info = do
    keys ← map_error Error.descriptor (parse_table_descriptor unmarshal info.table_json)
    columns ← key_columns_by_name keys.column_names keys.primary_keys
    properties ← map_error Error.descriptor (parse_table_properties unmarshal info.table_json)
    ok (record {
      schema_id = info.schema_id;
      key_columns = columns;
      indexed = is_indexed properties;
    })

abbrev pub kv_options : KvEncoding → KvBatchOptions
kv_options e = record {
  schema_id = bits_of e.schema_id;
  indexed = e.indexed;
  key_columns = map pos e.key_columns;
  writer_state = none;
}

-- The loop of `AppendArrowRows` at row `i`.
unfoldable pub arrow_values : Fields → ℕ → List Row → Result Error (List Items)
arrow_values first i [] = ok []
arrow_values first i (row ∷ rows) = do
  reject (not (field_count row.schema == field_count first)) (Error.field_mismatch i)
  map_error (λ e. Error.bad_schema i) (validate_schema row.schema)
  values ← arrow_values first (suc i) rows
  ok (row.values ∷ values)

abbrev pub compression_key : Bytes
compression_key = codes "table.log.arrow.compression.type"

abbrev one_of : Bool → Compression → Result Error Compression → Result Error Compression
one_of true c rest = ok c
one_of false c rest = rest

-- The switch of `AppendArrowRows`.
unfoldable pub compression_of : Bytes → Result Error Compression
compression_of type = one_of (bytes_eq (to_upper type) []) Compression.zstd (
    one_of (bytes_eq (to_upper type) (codes "ZSTD")) Compression.zstd (
      one_of (bytes_eq (to_upper type) (codes "LZ4_FRAME")) Compression.lz4 (
        one_of (bytes_eq (to_upper type) (codes "NONE")) Compression.no_compression
          (err (Error.unsupported_compression type)))))

module _ {W : Type 0} (net : Net W) (endpoint : Bytes) (path : TablePath)
    (unmarshal : Bytes → Option TableDescriptor) (num : Numbers) where
  abbrev pub State : Type 0
  State = W × Cache

  -- The info of the table with the errors of this file.
  abbrev pub table_of : State → State × Result Error TableInfo
  table_of s =
      let (s', found) = ensure_table_info net endpoint path s in (s', map_error Error.call found)

  unfoldable pub kv_encoding : State → State × Result Error KvEncoding
  kv_encoding s = let (s', found) = table_of s in (s', found >>= encoding_of unmarshal)

  -- The payload, without the flag that no caller reads.
  unfoldable pub encode_kv_row : State → Row → State × Result Error Bytes
  encode_kv_row s row =
      let (s', found) = kv_encoding s in
      (
        s',
        found >>= λ e. of_codec (encode_kv_record_batch num row.schema row.values (kv_options e)),
      )

  unfoldable pub encode_kv_delete_row : State → Row → State × Result Error Bytes
  encode_kv_delete_row s row =
      let (s', found) = kv_encoding s in
      (
        s',
        found >>= λ e.
            of_codec (encode_kv_delete_record_batch num row.schema row.values (kv_options e)),
      )

  abbrev pub in_bucket : ℤ → Bytes → List BucketRecordBatch
  in_bucket bucket_id payload =
      record { partition_id = none; bucket_id = bucket_id; records = payload } ∷ []

  module _ (writes : Writes State) where
    -- What UpsertRow and DeleteRow do with a payload.
    abbrev pub put_payload :
        ℤ
        → Row
        → List ℤ
        → State × Result Error Bytes
        → State × Result Error (List PutResult × Option WriteError)
    put_payload bucket_id row targets (s, panic) = (s, panic)
    put_payload bucket_id row targets (s, err e) = (s, err e)
    put_payload bucket_id row targets (s, ok payload) =
        let (s', returned) =
          writes.upsert_kv s (negsuc 0) (pos 15000)
            (normalize_target_columns targets (field_count row.schema)) none
            (in_bucket bucket_id payload) in
        (s', ok returned)

    unfoldable pub upsert_row :
        State → ℤ → Row → List ℤ → State × Result Error (List PutResult × Option WriteError)
    upsert_row s bucket_id row targets = put_payload bucket_id row targets (encode_kv_row s row)

    unfoldable pub partial_update_row :
        State → ℤ → Row → List ℤ → State × Result Error (List PutResult × Option WriteError)
    partial_update_row s bucket_id row [] = (s, err Error.no_target_columns)
    partial_update_row s bucket_id row (c ∷ cs) = upsert_row s bucket_id row (c ∷ cs)

    unfoldable pub delete_row :
        State → ℤ → Row → List ℤ → State × Result Error (List PutResult × Option WriteError)
    delete_row s bucket_id row targets =
        put_payload bucket_id row targets (encode_kv_delete_row s row)

    abbrev pub append_payload :
        ℤ
        → State × Result Error Bytes
        → State × Result Error (List ProduceResult × Option WriteError)
    append_payload bucket_id (s, panic) = (s, panic)
    append_payload bucket_id (s, err e) = (s, err e)
    append_payload bucket_id (s, ok payload) =
        let (s', returned) =
          writes.append_log s (negsuc 0) (pos 15000) (in_bucket bucket_id payload) in
        (s', ok returned)

    unfoldable pub append_indexed_row :
        State → ℤ → Row → State × Result Error (List ProduceResult × Option WriteError)
    append_indexed_row s bucket_id row =
        let (s', found) = table_of s in
        append_payload bucket_id (
          s',
          found >>= λ info. of_codec (
              encode_log_record_batch num row.schema row.values (record {
                schema_id = bits_of info.schema_id;
                indexed = true;
                writer_state = none;
              })),
        )

    -- The Arrow batch of rows under the schema of the first one.
    unfoldable pub arrow_payload :
        (Fields → List Items → ℤ → Compression → Result Types.Error Bytes)
        → TableInfo
        → Fields
        → List Row
        → Result Error Bytes
    arrow_payload encode info schema rows = do
      values ← arrow_values schema 0 rows
      properties ← map_error Error.descriptor (parse_table_properties unmarshal info.table_json)
      compression ← compression_of (property properties compression_key)
      of_codec (encode schema values info.schema_id compression)

    unfoldable pub append_arrow_rows :
        (Fields → List Items → ℤ → Compression → Result Types.Error Bytes)
        → State
        → ℤ
        → List Row
        → State × Result Error (List ProduceResult × Option WriteError)
    append_arrow_rows encode s bucket_id [] = (s, err Error.no_rows)
    append_arrow_rows encode s bucket_id (row ∷ rows) =
        let (s', found) = table_of s in
        append_payload bucket_id
          (s', found >>= λ info. arrow_payload encode info row.schema (row ∷ rows))
