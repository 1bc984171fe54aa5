-- ===== src/Rows/Decoding.antt =====
-- client/row.go: decoding payloads. The decoder of Arrow batches is a parameter.
use fluss_go_client.Prelude.{ltb, Bool, true, false, List, length, drop}
use fluss_go_client.Result.{Result, ◌>>◌, reject, map_error}
use fluss_go_client.Bytes.{Bytes}
use fluss_go_client.Row.Types
use fluss_go_client.Row.Types.{Fields}
use fluss_go_client.Row.Value.{Items}
use fluss_go_client.Row.Read.{decode_row}
use fluss_go_client.Row.Unbatch.{
  decode_log_record_batch, decode_log_record_batch_rows, decode_value_record_batch_rows,
}
use fluss_go_client.Table.Read.{LimitScanResult}
use fluss_go_client.Rows.{Error}

abbrev pub of_codec : {A : Type 0} → Result Types.Error A → Result Error A
of_codec m = map_error Error.codec m

unfoldable pub decode_indexed_row_payload : Fields → Bytes → Result Error Items
decode_indexed_row_payload fs payload = of_codec (decode_row fs payload true)

unfoldable pub decode_indexed_log_batch_payload : Fields → Bytes → Result Error Items
decode_indexed_log_batch_payload fs payload = of_codec (decode_log_record_batch fs payload)

unfoldable pub decode_indexed_log_batch_rows : Fields → Bytes → Result Error (List Items)
decode_indexed_log_batch_rows fs payload = of_codec (decode_log_record_batch_rows fs payload)

unfoldable pub decode_value_batch_rows : Fields → Bytes → Bool → Result Error (List Items)
decode_value_batch_rows fs payload indexed =
    of_codec (decode_value_record_batch_rows fs payload indexed)

unfoldable pub decode_indexed_value_batch_rows : Fields → Bytes → Result Error (List Items)
decode_indexed_value_batch_rows fs payload =
    of_codec (decode_value_record_batch_rows fs payload true)

-- `DecodeLimitScanRows`, and below `DecodeIndexedLimitScanRows`.
unfoldable pub decode_limit_scan_rows : Fields → LimitScanResult → Bool → Result Error (List Items)
decode_limit_scan_rows fs result indexed = elim result.is_log_table [
  | true ↦ decode_indexed_log_batch_rows fs result.records
  | false ↦ decode_value_batch_rows fs result.records indexed
]

unfoldable pub decode_indexed_limit_scan_rows : Fields → LimitScanResult → Result Error (List Items)
decode_indexed_limit_scan_rows fs result = elim result.is_log_table [
  | true ↦ decode_indexed_log_batch_rows fs result.records
  | false ↦ decode_indexed_value_batch_rows fs result.records
]

-- The schema id in front of the row is passed over.
unfoldable pub decode_lookup_value_payload : Fields → Bytes → Bool → Result Error Items
decode_lookup_value_payload fs payload indexed = do
  reject (ltb (length payload) 2) Error.payload_too_short
  of_codec (decode_row fs (drop 2 payload) indexed)

unfoldable pub decode_indexed_lookup_value_payload : Fields → Bytes → Result Error Items
decode_indexed_lookup_value_payload fs payload = do
  reject (ltb (length payload) 2) Error.payload_too_short
  of_codec (decode_row fs (drop 2 payload) true)

module _ (decode decode_projected : Fields → Bytes → Result Types.Error (List Items)) where
  unfoldable pub decode_arrow_log_batch_rows : Fields → Bytes → Result Error (List Items)
  decode_arrow_log_batch_rows fs payload = of_codec (decode fs payload)

  unfoldable pub decode_projected_arrow_log_batch_rows : Fields → Bytes → Result Error (List Items)
  decode_projected_arrow_log_batch_rows fs payload = of_codec (decode_projected fs payload)
