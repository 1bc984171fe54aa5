-- ===== src/Row/Batch.antt =====
-- row.go: encoding log batches and kv batches around rows, and lookup keys.
use fluss_go_client.Prelude.{
  ℕ, zero, suc, ◌+◌, ◌-◌, ◌%◌, ◌^◌, Bool, not, Option, none, some, ◌==◌, List, [], ◌∷◌, ◌++◌,
  length,
}
use fluss_go_client.Prelude.Int.{ℤ, pos, negsuc}
use fluss_go_client.Result.{Result, ok, err, ◌>>=◌, ◌>>◌, reject}
use fluss_go_client.Bytes.{Bytes, le_bytes, put_uvarint}
use fluss_go_client.Row.Types.{FieldType, Fields, Error, field_count, validate_schema}
use fluss_go_client.Row.Value.{Value, Items, Numbers, item_count}
use fluss_go_client.Row.Encode.{encode_row, encode_compacted_key_value}
use fluss_go_client.Row.Crc.{checksum}

-- int64 and int32, as bit patterns
pub record WriterState : Type 0 where
  pub writer_id : ℕ
  pub batch_sequence : ℕ

unfoldable pub encoded_writer_id : Option WriterState → ℕ
encoded_writer_id none = 2 ^ 64 - 1
encoded_writer_id (some w) = w.writer_id

unfoldable pub encoded_batch_sequence : Option WriterState → ℕ
encoded_batch_sequence none = 2 ^ 32 - 1
encoded_batch_sequence (some w) = w.batch_sequence

-- The checksum of what follows the placeholder is written over the placeholder.
abbrev with_crc : Bytes → Bytes → Bytes
with_crc before after = before ++ (le_bytes 4 (checksum after) ++ after)

-- From the schema id to the end: schema id, attributes, last offset delta, writer, count, records.
abbrev pub log_body : ℕ → Bytes → Option WriterState → Bytes
log_body schema_id payload w =
    le_bytes 2 (schema_id % 2 ^ 16)
    ++ (0
        ∷ (le_bytes 4 0
            ++ (le_bytes 8 (encoded_writer_id w)
                ++ (le_bytes 4 (encoded_batch_sequence w) ++ (le_bytes 4 1 ++ payload)))))

-- Base offset, length, magic and commit timestamp.
abbrev pub log_head : Bytes → Bytes
log_head payload =
    le_bytes 8 0 ++ (le_bytes 4 ((36 + length payload) % 2 ^ 32) ++ (0 ∷ le_bytes 8 0))

unfoldable pub encode_log_batch : ℕ → Bytes → Option WriterState → Bytes
encode_log_batch schema_id payload w = with_crc (log_head payload) (log_body schema_id payload w)

abbrev pub kv_body : ℕ → Bytes → Option WriterState → Bytes
kv_body schema_id payload w =
    le_bytes 2 (schema_id % 2 ^ 16)
    ++ (0
        ∷ (le_bytes 8 (encoded_writer_id w)
            ++ (le_bytes 4 (encoded_batch_sequence w) ++ (le_bytes 4 1 ++ payload))))

abbrev pub kv_head : Bytes → Bytes
kv_head payload = le_bytes 4 ((24 + length payload) % 2 ^ 32) ++ (0 ∷ [])

unfoldable pub encode_kv_batch : ℕ → Bytes → Option WriterState → Bytes
encode_kv_batch schema_id payload w = with_crc (kv_head payload) (kv_body schema_id payload w)

unfoldable pub encode_log_record : Numbers → Fields → Items → Bool → Result Error Bytes
encode_log_record num fs vs indexed = do
  row ← encode_row num fs vs indexed
  ok (le_bytes 4 ((1 + length row) % 2 ^ 32) ++ (0 ∷ row))

-- `NewRow`
unfoldable pub new_row : Fields → Items → Result Error Unit
new_row fs vs = do
  reject (not (item_count vs == field_count fs)) Error.value_count
  validate_schema fs

unfoldable pub field_at : Fields → Items → ℕ → Option (FieldType × Value)
field_at (Fields.field f fs) (Items.item v vs) zero = some (f, v)
field_at (Fields.field f fs) (Items.item v vs) (suc i) = field_at fs vs i
field_at _ _ i = none

-- The field and the value of a key column, or the error for one out of range.
unfoldable pub key_column : Fields → Items → ℤ → Result Error (FieldType × Value)
key_column fs vs (negsuc i) = err Error.key_out_of_range
key_column fs vs (pos i) = elim (field_at fs vs i) [
  | none ↦ err Error.key_out_of_range
  | some fv ↦ ok fv
]

-- The loop of `EncodeLookupKey`.
unfoldable pub encode_key_columns : Numbers → Fields → Items → List ℤ → Bytes → Result Error Bytes
encode_key_columns num fs vs [] buf = ok buf
encode_key_columns num fs vs (c ∷ cs) buf = do
  (f, v) ← key_column fs vs c
  part ← encode_compacted_key_value num f v
  encode_key_columns num fs vs cs (buf ++ part)

unfoldable pub encode_lookup_key : Numbers → Fields → Items → List ℤ → Result Error Bytes
encode_lookup_key num fs vs [] = err Error.key_required
encode_lookup_key num fs vs (c ∷ cs) = encode_key_columns num fs vs (c ∷ cs) []

pub record KvBatchOptions : Type 0 where
  pub schema_id : ℕ
  pub indexed : Bool
  pub key_columns : List ℤ
  pub writer_state : Option WriterState

-- The first column is the key where none is named.
abbrev key_columns_of : List ℤ → List ℤ
key_columns_of [] = pos 0 ∷ []
key_columns_of cs = cs

-- The varint of the key's length, and the key: what both kinds of kv record begin with.
unfoldable pub kv_key : Numbers → Fields → Items → KvBatchOptions → Result Error Bytes
kv_key num fs vs opts = do
  reject (field_count fs == 0) Error.no_fields
  new_row fs vs
  key ← encode_lookup_key num fs vs (key_columns_of opts.key_columns)
  ok (put_uvarint (length key) ++ key)

unfoldable pub encode_kv_record : Numbers → Fields → Items → KvBatchOptions → Result Error Bytes
encode_kv_record num fs vs opts = do
  key ← kv_key num fs vs opts
  row ← encode_row num fs vs opts.indexed
  ok (le_bytes 4 ((length key + length row) % 2 ^ 32) ++ (key ++ row))

unfoldable pub encode_kv_delete_record :
    Numbers → Fields → Items → KvBatchOptions → Result Error Bytes
encode_kv_delete_record num fs vs opts = do
  key ← kv_key num fs vs opts
  ok (le_bytes 4 (length key % 2 ^ 32) ++ key)

pub record LogBatchOptions : Type 0 where
  pub schema_id : ℕ
  pub indexed : Bool
  pub writer_state : Option WriterState

unfoldable pub encode_log_record_batch :
    Numbers → Fields → Items → LogBatchOptions → Result Error Bytes
encode_log_record_batch num fs vs opts = do
  payload ← encode_log_record num fs vs opts.indexed
  ok (encode_log_batch opts.schema_id payload opts.writer_state)

unfoldable pub encode_kv_record_batch :
    Numbers → Fields → Items → KvBatchOptions → Result Error Bytes
encode_kv_record_batch num fs vs opts = do
  payload ← encode_kv_record num fs vs opts
  ok (encode_kv_batch opts.schema_id payload opts.writer_state)

unfoldable pub encode_kv_delete_record_batch :
    Numbers → Fields → Items → KvBatchOptions → Result Error Bytes
encode_kv_delete_record_batch num fs vs opts = do
  payload ← encode_kv_delete_record num fs vs opts
  ok (encode_kv_batch opts.schema_id payload opts.writer_state)
