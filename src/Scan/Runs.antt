-- ===== src/Scan/Runs.antt =====
-- A scan of two pages, at the cluster of the table client's runs.
use fluss_go_client.Prelude.{
  ◌≡◌, refl, true, false, Option, none, some, if◌then◌else◌, List, [], ◌∷◌, drop, arith,
}
use fluss_go_client.Prelude.Int.{pos}
use fluss_go_client.Prelude.Maps.{find, put}
use fluss_go_client.Result.{Result, ok, err}
use fluss_go_client.Bytes.{Bytes, le_uint}
use fluss_go_client.Bytes.Equal.{bytes_eq}
use fluss_go_client.Text.{to_upper}
use fluss_go_client.Format.{format_d, digits_loop}
use fluss_go_client.Row.Types.{
  FieldType, Fields, validate_schema, validate_fields, validate, field_count, is_fixed,
}
use fluss_go_client.Row.Encode.{null_bits_size}
use fluss_go_client.Row.Decode.{
  unframe_row, read_lengths, null_bit, take_field, fixed_size, decode_scalar,
}
use fluss_go_client.Row.Value.{Value, Items, Numbers}
use fluss_go_client.Row.Read.{decode_row, decode_fields, decode_value}
use fluss_go_client.Row.Unbatch.{
  decode_value_record_batch_rows, decode_value_loop, decode_value_step,
}
use fluss_go_client.Metadata.Cache.{
  address, path_eq, route_key, upsert_server, server, set_table, table, set_route, route,
}
use fluss_go_client.Metadata.TableDescriptor.{
  TableDescriptor, parse_table_descriptor, parse_table_properties,
}
use fluss_go_client.Client.{route_for}
use fluss_go_client.Table.Retry.{GoError}
use fluss_go_client.Table.Send.{bucket_api_error}
use fluss_go_client.Table.Send.Routes.{ensure_table_info, table_route_for}
use fluss_go_client.Table.Sample.{path, cache, address_a, lost_leader, quiet_net}
use fluss_go_client.Rows.{key_columns_by_name, index_of, is_indexed, equal_fold}
use fluss_go_client.Rows.Decoding.{decode_value_batch_rows}
use fluss_go_client.Rows.Encoding.{KvEncoding, encoding_of, kv_encoding}
use fluss_go_client.Scan.{
  KvScanner, ScanKvRequest, ScanKvResponse, ScanKvResult, PbScanReqForBucket, new_kv_scanner,
  scan_request, advance, take_answer, next,
}
use fluss_go_client.Scan.Rows.{Scanned, scan_loop, scan_rows}
use fluss_go_client.Scan.Requests.{
  Paged, stop, page, expected_request, answered_by, scan_request-Paged, scan_request_unopened,
}
use fluss_go_client.Scan.Drained.{Holds, last_rows, empty_page, scan_loop-Holds, scan_rows_drains}
use fluss_go_client.Scan.Complete.{scan_loop_complete}

abbrev schema : Fields
schema = Fields.field FieldType.int8 Fields.end

abbrev row : Items
row = Items.item (Value.int8 7) Items.end

-- One value: its length, two bytes of schema id, and the row.
abbrev records : Bytes
records = 13 ∷ 0 ∷ 0 ∷ 0 ∷ 0 ∷ 1 ∷ 0 ∷ 0 ∷ 0 ∷ 4 ∷ 0 ∷ 0 ∷ 0 ∷ 5 ∷ 0 ∷ 0 ∷ 7 ∷ []

decoded : decode_value_batch_rows schema records true ≡ ok (row ∷ [])
unfolding decode_value_batch_rows decode_value_record_batch_rows decode_value_loop decode_value_step
    decode_row decode_fields decode_value validate_schema validate_fields validate le_uint
    unframe_row null_bits_size field_count read_lengths is_fixed null_bit take_field fixed_size
    decode_scalar
decoded = refl

-- A first page without records, and a last one.
abbrev first_answer : ScanKvResponse
first_answer = record {
  error_code = none;
  error_message = none;
  scanner_id = 5 ∷ [];
  has_more_results = some true;
  records = [];
  log_offset = none;
}

abbrev last_answer : ScanKvResponse
last_answer = record {
  error_code = none;
  error_message = none;
  scanner_id = [];
  has_more_results = some false;
  records = records;
  log_offset = some (pos 3);
}

abbrev first_page : ScanKvResult
first_page = record {
  scanner_id = 5 ∷ [];
  has_more_results = true;
  records = [];
  log_offset = none;
}

abbrev last_page : ScanKvResult
last_page = record {
  scanner_id = [];
  has_more_results = false;
  records = records;
  log_offset = some (pos 3);
}

abbrev pages : List ScanKvResult
pages = first_page ∷ (last_page ∷ [])

abbrev answer_to : Option PbScanReqForBucket → ScanKvResponse
answer_to none = last_answer
answer_to (some bucket) = first_answer

abbrev scan_kv : Unit {0} → Bytes → ScanKvRequest → Unit {0} × Result GoError ScanKvResponse
scan_kv w addr req =
    (w, if bytes_eq addr address_a then ok (answer_to req.bucket_scan_req) else err lost_leader)

abbrev fresh : KvScanner
fresh = new_kv_scanner none (pos 1) none (pos 64)

abbrev behind_first : KvScanner
behind_first = record {
  partition_id = none;
  bucket_id = pos 1;
  limit = none;
  batch_size_bytes = pos 64;
  scanner_id = 5 ∷ [];
  call_seq_id = 1;
  has_more = true;
  started = true;
}

abbrev behind_last : KvScanner
behind_last = record behind_first { call_seq_id = 2; has_more = false }

first_next :
    next quiet_net [] path scan_kv (tt, cache, fresh) ≡ ((tt, cache, behind_first), ok first_page)
unfolding next ensure_table_info table_route_for route_for route server table set_route
    upsert_server set_table find put path_eq route_key format_d digits_loop bytes_eq address
    new_kv_scanner scan_request take_answer advance bucket_api_error
first_next = refl

last_next :
    next quiet_net [] path scan_kv (tt, cache, behind_first)
    ≡ ((tt, cache, behind_last), ok last_page)
unfolding next ensure_table_info table_route_for route_for route server table set_route
    upsert_server set_table find put path_eq route_key format_d digits_loop bytes_eq address
    scan_request take_answer advance bucket_api_error
last_next = refl

both-Paged : Paged quiet_net [] path scan_kv (tt, cache, fresh) pages (tt, cache, behind_last)
both-Paged =
    page (tt, cache, fresh) (tt, cache, behind_first) (tt, cache, behind_last) first_page
      (last_page ∷ []) first_next
      (page (tt, cache, behind_first) (tt, cache, behind_last) (tt, cache, behind_last) last_page []
        last_next (stop (tt, cache, behind_last)))

both-Holds : Holds schema true 0 pages (row ∷ [])
both-Holds =
    empty_page 0 first_page (last_page ∷ []) (row ∷ []) refl refl refl
      (last_rows 1 last_page 13 (drop 1 records) (row ∷ []) refl refl decoded)

scan_request-Paged_example :
    scan_request behind_last (pos 5) ≡ expected_request (pos 5) none (pos 1) none (pos 64) pages
scan_request-Paged_example =
    scan_request-Paged quiet_net [] path scan_kv none (pos 1) none (pos 64) (pos 5) tt tt cache
      cache behind_last pages both-Paged

-- An answer with an error code.
abbrev failed_answer : ScanKvResponse
failed_answer = record first_answer { error_code = some (pos 44) }

scan_request_unopened_example :
    ((scan_request (answered_by fresh (failed_answer ∷ [])) (pos 5)).bucket_scan_req ≡ none)
    × ((scan_request (answered_by fresh (failed_answer ∷ [])) (pos 5)).scanner_id ≡ [])
scan_request_unopened_example =
    scan_request_unopened none (pos 1) none (pos 64) (pos 5) failed_answer [] (refl, tt)

-- A table with one column, its key.
abbrev unmarshal : Bytes → Option TableDescriptor
unmarshal text = some (record {
  columns = (b'i' ∷ []) ∷ [];
  primary_key = (b'i' ∷ []) ∷ [];
  partition_key = [];
  bucket_key = [];
  properties = none;
})

abbrev no_numbers : Numbers
no_numbers = record { to_float32 = λ x. 0; parse_rat = λ s. none }

abbrev encoding : KvEncoding
encoding = record { schema_id = pos 1; key_columns = 0 ∷ []; indexed = true }

opened : kv_encoding quiet_net [] path unmarshal no_numbers (tt, cache) ≡ ((tt, cache), ok encoding)
unfolding kv_encoding encoding_of ensure_table_info table set_route upsert_server set_table put find
    path_eq bytes_eq parse_table_descriptor parse_table_properties key_columns_by_name index_of
    is_indexed equal_fold to_upper
opened = refl

scan_rows_drains_example :
    (scan_rows quiet_net [] path scan_kv schema unmarshal no_numbers 2
      (tt, cache)
      none
      (pos 1)
      none
      (pos 64)).1
    ≡ Scanned.finished (ok (row ∷ []))
scan_rows_drains_example =
    scan_rows_drains quiet_net [] path scan_kv schema unmarshal no_numbers 2 (tt, cache) (tt, cache)
      encoding none (pos 1) none (pos 64) (tt, cache, behind_last) pages (row ∷ []) opened
      both-Paged both-Holds (omega arith)

looped :
    scan_loop quiet_net [] path scan_kv schema true 2 (tt, cache, fresh) 0
    ≡ ((tt, cache, behind_last), Scanned.finished (ok (row ∷ [])))
looped =
    scan_loop-Holds quiet_net [] path scan_kv schema true 2 0 (tt, cache, fresh)
      (tt, cache, behind_last) pages (row ∷ []) both-Holds both-Paged (omega arith)

scan_loop_complete_example :
    (seen : List ScanKvResult) × Paged quiet_net [] path scan_kv
      (tt, cache, fresh)
      seen
      (tt, cache, behind_last)
    × Holds schema true 0 seen (row ∷ [])
scan_loop_complete_example =
    scan_loop_complete quiet_net [] path scan_kv schema true 2 0 (tt, cache, fresh)
      (tt, cache, behind_last) (row ∷ []) looped
