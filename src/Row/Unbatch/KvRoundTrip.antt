-- ===== src/Row/Unbatch/KvRoundTrip.antt =====
-- row.go: encodeKvBatch and decodeKvBatch together.
use fluss_go_client.Prelude.{
  ℕ, ◌+◌, ◌%◌, ◌^◌, ◌≡◌, refl, false, ltb, le→ltb, ==_refl, Option, arith, ◌++◌, length, get_or,
  drop,
}
use fluss_go_client.Result.{ok}
use fluss_go_client.Bytes.{Bytes, le_bytes, le_uint}
use fluss_go_client.Bytes.Fixed.{le_uint-le_bytes}
use fluss_go_client.Row.Crc.{checksum, checksum-lt}
use fluss_go_client.Row.Batch.{WriterState, kv_head, kv_body, encode_kv_batch}
use fluss_go_client.Row.Unbatch.{decode_kv_batch}

module _ (schema_id : ℕ) (payload : Bytes) (w : Option WriterState) where
  body : Bytes
  body = kv_body schema_id payload w

  kv_bytes : Bytes
  unfolding body
  kv_bytes = kv_head payload ++ (le_bytes 4 (checksum body) ++ body)

  length-kv_bytes : length kv_bytes ≡ 28 + length payload
  unfolding kv_bytes body le_bytes
  length-kv_bytes = omega arith

  magic : get_or kv_bytes 4 0 ≡ 0
  unfolding kv_bytes body le_bytes
  magic = refl

  crc_field : le_uint 4 (drop 5 kv_bytes) ≡ checksum body
  unfolding kv_bytes le_bytes
  crc_field = le_uint-le_bytes 4 (checksum body) _ (checksum-lt body)

  schema_field : le_uint 2 (drop 9 kv_bytes) ≡ schema_id % 2 ^ 16
  unfolding kv_bytes body le_bytes
  schema_field = le_uint-le_bytes 2 (schema_id % 2 ^ 16) _ (omega arith)

  drop_to_body : drop 9 kv_bytes ≡ body
  unfolding kv_bytes le_bytes
  drop_to_body = refl

  drop_to_payload : drop 28 kv_bytes ≡ payload
  unfolding kv_bytes body le_bytes
  drop_to_payload = refl

  decode_kv_bytes : decode_kv_batch kv_bytes ≡ ok (schema_id % 2 ^ 16, payload)
  unfolding decode_kv_batch
  decode_kv_bytes =
      let long : ltb (length kv_bytes) 28 ≡ false = le→ltb _ 28 (omega (arith, length-kv_bytes)) in
      rw long (
        rw magic (
          rw crc_field (
            rw schema_field (rw drop_to_body (rw (==_refl (checksum body)) (rw drop_to_payload))))))

-- decodeKvBatch takes what encodeKvBatch wrote apart into the low 16 bits of the schema id and the
-- records.
pub decode_kv_batch-encode_kv_batch :
    (schema_id : ℕ) (payload : Bytes) (w : Option WriterState)
    → decode_kv_batch (encode_kv_batch schema_id payload w) ≡ ok (schema_id % 2 ^ 16, payload)
unfolding encode_kv_batch kv_bytes body
decode_kv_batch-encode_kv_batch schema_id payload w = decode_kv_bytes schema_id payload w
