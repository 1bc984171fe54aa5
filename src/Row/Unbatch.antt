-- ===== src/Row/Unbatch.antt =====
-- row.go: decoding log batches, kv batches and value batches. A slice expression whose bounds are out
-- of order panics, as in Go; `batch[21:25]` reaches into the capacity of the payload.
pub mod LogRoundTrip
pub mod LogRecords
pub mod KvRoundTrip
pub mod Fuel
use fluss_go_client.Prelude.{
  ℕ, zero, suc, ◌+◌, ◌%◌, ◌^◌, ◌-◌, Bool, true, false, not, ltb, ◌==◌, if◌then◌else◌, List, [], ◌∷◌,
  ◌++◌, length, get_or, take, drop, ◌||◌, ◌&&◌,
}
use fluss_go_client.Result.{Result, ok, err, panic, ◌>>=◌, ◌>>◌, reject}
use fluss_go_client.Bytes.{Bytes, le_uint}
use fluss_go_client.Row.Types.{Fields, Error, validate_schema}
use fluss_go_client.Row.Value.{Items}
use fluss_go_client.Row.Read.{decode_row}
use fluss_go_client.Row.Crc.{checksum}

-- A slice expression whose low bound passes its high one.
abbrev pub check_slice : Bool → Result Error Unit
check_slice true = panic
check_slice false = ok tt

unfoldable pub decode_log_batch : Bytes → Result Error (ℕ × Bytes)
decode_log_batch payload = do
  reject (ltb (length payload) 48) Error.too_short
  reject (not (get_or payload 12 0 == 0)) Error.bad_magic
  let size = le_uint 4 (drop 8 payload) + 12
  reject (ltb (length payload) size) Error.truncated
  let batch = take size payload
  check_slice (ltb size 25)
  reject (not (le_uint 4 (drop 21 payload) == checksum (drop 25 batch))) Error.bad_crc
  check_slice (ltb size 48)
  ok (size, drop 48 batch)

-- The schema id, and the records.
unfoldable pub decode_kv_batch : Bytes → Result Error (ℕ × Bytes)
decode_kv_batch payload = do
  reject (ltb (length payload) 28) Error.too_short
  reject (not (get_or payload 4 0 == 0)) Error.bad_magic
  reject (not (le_uint 4 (drop 5 payload) == checksum (drop 9 payload))) Error.bad_crc
  ok (le_uint 2 (drop 9 payload), drop 28 payload)

-- One round of `decodeLogRecords`: a row, and what follows its record.
unfoldable pub decode_log_step : Fields → Bytes → Result Error (Items × Bytes)
decode_log_step fs rest = do
  reject (ltb (length rest) 5) Error.truncated
  let declared = le_uint 4 rest
  reject (ltb (length rest) (4 + declared)) Error.truncated
  reject (not (get_or rest 4 0 == 0)) Error.bad_attributes
  check_slice (ltb (4 + declared) 5)
  row ← decode_row fs (drop 5 (take (4 + declared) rest)) true
  ok (row, drop (4 + declared) rest)

-- `off < len(payload)`; the rounds are bounded by the bytes, and running out of them is a panic here.
unfoldable pub decode_log_loop : ℕ → Fields → Bytes → Result Error (List Items)
decode_log_loop fuel fs [] = ok []
decode_log_loop zero fs (b ∷ bs) = panic
decode_log_loop (suc fuel) fs (b ∷ bs) = do
  (row, rest) ← decode_log_step fs (b ∷ bs)
  rows ← decode_log_loop fuel fs rest
  ok (row ∷ rows)

unfoldable pub decode_log_records : Fields → Bytes → Result Error (List Items)
decode_log_records fs payload = decode_log_loop (length payload) fs payload

first_row : List Items → Result Error Items
first_row [] = err Error.empty
first_row (row ∷ rows) = ok row

unfoldable pub decode_log_record_batch : Fields → Bytes → Result Error Items
unfolding first_row
decode_log_record_batch fs payload = do
  (size, records) ← decode_log_batch payload
  rows ← decode_log_records fs records
  first_row rows

-- The loop of `DecodeLogRecordBatchRows`, bounded like the one above.
unfoldable pub decode_batches : ℕ → Fields → Bytes → Result Error (List Items)
decode_batches fuel fs [] = ok []
decode_batches zero fs (b ∷ bs) = panic
decode_batches (suc fuel) fs (b ∷ bs) = do
  (size, records) ← decode_log_batch (b ∷ bs)
  decoded ← decode_log_records fs records
  rows ← decode_batches fuel fs (drop size (b ∷ bs))
  ok (decoded ++ rows)

unfoldable pub decode_log_record_batch_rows : Fields → Bytes → Result Error (List Items)
decode_log_record_batch_rows fs payload = decode_batches (length payload) fs payload

-- It takes the records for a row, though a kv record has its length and key in front.
unfoldable pub decode_kv_record_batch : Fields → Bytes → Result Error Items
decode_kv_record_batch fs payload = do
  (schema_id, records) ← decode_kv_batch payload
  decode_row fs records true

-- One round of `DecodeValueRecordBatchRows`: a length, two bytes of schema id that are passed over, and
-- a row.
unfoldable pub decode_value_step : Fields → Bool → Bytes → Result Error (Items × Bytes)
decode_value_step fs indexed rest = do
  reject (ltb (length rest) 6) Error.truncated
  let n = le_uint 4 rest
  reject (ltb (length rest) (4 + n)) Error.truncated
  check_slice (ltb (4 + n) 6)
  row ← decode_row fs (drop 6 (take (4 + n) rest)) indexed
  ok (row, drop (4 + n) rest)

-- Its loop, with the rounds that are left; what follows the last record comes back too.
unfoldable pub decode_value_loop : Fields → Bool → ℕ → Bytes → Result Error (List Items × Bytes)
decode_value_loop fs indexed zero rest = ok ([], rest)
decode_value_loop fs indexed (suc count) rest = do
  (row, rest') ← decode_value_step fs indexed rest
  (rows, rest'') ← decode_value_loop fs indexed count rest'
  ok (row ∷ rows, rest'')

unfoldable pub decode_value_record_batch_rows : Fields → Bytes → Bool → Result Error (List Items)
decode_value_record_batch_rows fs payload indexed = do
  validate_schema fs
  reject (ltb (length payload) 9) Error.too_short
  let declared = le_uint 4 payload
  reject (ltb (length payload) (declared + 4)) Error.truncated
  reject (not (get_or payload 4 0 == 0)) Error.bad_magic
  let count = le_uint 4 (drop 5 payload)
  (rows, rest) ← decode_value_loop fs indexed count (drop 9 (take (declared + 4) payload))
  reject (not (length rest == 0) || ltb (declared + 4) 9) Error.bad_size
  ok rows
