-- ===== src/Row/Unbatch/LogRoundTrip.antt =====
-- row.go: encodeLogBatch and decodeLogBatch together.
use fluss_go_client.Prelude.{
  ℕ, ◌+◌, ◌%◌, ◌^◌, ◌<◌, ◌≡◌, refl, false, ltb, le→ltb, ==_refl, Option, arith, [], ◌++◌, length,
  get_or, drop, length-append, take-append,
}
use fluss_go_client.Result.{ok}
use fluss_go_client.Bytes.{Bytes, le_bytes, le_uint}
use fluss_go_client.Bytes.Fixed.{le_uint-le_bytes}
use fluss_go_client.Row.Crc.{checksum, checksum-lt}
use fluss_go_client.Row.Batch.{WriterState, log_head, log_body, encode_log_batch}
use fluss_go_client.Row.Unbatch.{decode_log_batch}

module _ (schema_id : ℕ) (payload rest : Bytes) (w : Option WriterState) where
  body : Bytes
  body = log_body schema_id payload w

  batch : Bytes
  unfolding body
  batch = log_head payload ++ (le_bytes 4 (checksum body) ++ body)

  length-batch : length batch ≡ 48 + length payload
  unfolding batch body le_bytes
  length-batch = omega arith

  magic : get_or (batch ++ rest) 12 0 ≡ 0
  unfolding batch body le_bytes
  magic = refl

  size_field : le_uint 4 (drop 8 (batch ++ rest)) ≡ (36 + length payload) % 2 ^ 32
  unfolding batch body le_bytes
  size_field = le_uint-le_bytes 4 ((36 + length payload) % 2 ^ 32) _ (omega arith)

  crc_field : le_uint 4 (drop 21 (batch ++ rest)) ≡ checksum body
  unfolding batch le_bytes
  crc_field = le_uint-le_bytes 4 (checksum body) _ (checksum-lt body)

  drop_to_body : drop 25 batch ≡ body
  unfolding batch le_bytes
  drop_to_body = refl

  drop_to_payload : drop 48 batch ≡ payload
  unfolding batch body le_bytes
  drop_to_payload = refl

  decode_batch :
      48 + length payload < 2 ^ 32 → decode_log_batch (batch ++ rest) ≡ ok (length batch, payload)
  unfolding decode_log_batch
  decode_batch h =
      let total = length-append batch rest in
      let size : le_uint 4 (drop 8 (batch ++ rest)) + 12 ≡ length batch =
        omega (arith, size_field, length-batch) in
      let long : ltb (length (batch ++ rest)) 48 ≡ false =
        le→ltb _ 48 (omega (arith, total, length-batch)) in
      let inside : ltb (length (batch ++ rest)) (length batch) ≡ false =
        le→ltb _ _ (omega (arith, total)) in
      let past_crc : ltb (length batch) 25 ≡ false = le→ltb _ 25 (omega (arith, length-batch)) in
      let past_head : ltb (length batch) 48 ≡ false = le→ltb _ 48 (omega (arith, length-batch)) in
      rw long (
        rw magic (
          rw size (
            rw inside (
              rw past_crc (
                rw (take-append batch rest) (
                  rw drop_to_body (
                    rw crc_field
                      (rw (==_refl (checksum body)) (rw past_head (rw drop_to_payload))))))))))

-- decodeLogBatch takes a batch of fewer than 2^32 bytes that encodeLogBatch wrote off the front of any
-- payload, and gives its size and its records.
pub decode_log_batch-encode_log_batch :
    (schema_id : ℕ) (payload rest : Bytes) (w : Option WriterState)
    → 48 + length payload < 2 ^ 32
    → decode_log_batch (encode_log_batch schema_id payload w ++ rest)
      ≡ ok (length (encode_log_batch schema_id payload w), payload)
unfolding encode_log_batch batch body
decode_log_batch-encode_log_batch schema_id payload rest w h =
    decode_batch schema_id payload rest w h

pub length-encode_log_batch :
    (schema_id : ℕ) (payload : Bytes) (w : Option WriterState)
    → length (encode_log_batch schema_id payload w) ≡ 48 + length payload
unfolding encode_log_batch batch body
length-encode_log_batch schema_id payload w = length-batch schema_id payload [] w
