-- ===== src/Row/Malformed.antt =====
-- row.go: lengths from the wire that no check covers, big decimals with a sign, and compacted timestamps.
use fluss_go_client.Prelude.{
  ℕ, suc, ◌+◌, ◌*◌, ◌/◌, ◌%◌, ◌^◌, ◌≤◌, ◌<◌, ◌≡◌, refl, ap, ◌∙◌, true, false, ltb, lt→ltb, le→ltb,
  arith, [], ◌∷◌, ◌++◌, length, get_or, take, drop, some,
}
use fluss_go_client.Prelude.Int.{ℤ, pos, negsuc, leb_ℤ}
use fluss_go_client.Result.{ok, err, panic}
use fluss_go_client.Bytes.{Bytes, be_value, le_uint, le_value, le_bytes, uvarint, uvarint_loop}
use fluss_go_client.Row.Types.{Fields, Error}
use fluss_go_client.Row.Value.{Value}
use fluss_go_client.Row.Number.{big_bytes, set_bytes, magnitude}
use fluss_go_client.Row.Encode.{encode_decimal, encode_timestamp, encode_fixed64}
use fluss_go_client.Row.Decode.{
  decode_decimal, decode_timestamp, compacted_timestamp_size, read_uvarint,
}
use fluss_go_client.Row.RoundTrip.Scalars.{decode-encode_length_prefixed, be_value-magnitude_loop}
use fluss_go_client.Row.Unbatch.{
  decode_log_batch, decode_log_step, decode_log_loop, decode_log_records,
}

set_bytes_drops_sign : (n : ℕ) → set_bytes (big_bytes (negsuc n)) ≡ pos (suc n)
unfolding set_bytes big_bytes magnitude be_value
set_bytes_drops_sign n =
    ap pos (be_value-magnitude_loop (0 + suc n) (0 + suc n) [] (omega arith)) ∙ ap pos (omega arith)

-- In the indexed format a negative decimal with a precision over 18 decodes to its absolute value.
pub decimal_loses_sign :
    (precision scale : ℤ) (n : ℕ)
    → leb_ℤ precision (pos 18) ≡ false
    → decode_decimal precision scale (encode_decimal (negsuc n) precision true) true
      ≡ ok (Value.decimal (some (pos (suc n))) scale)
unfolding decode_decimal encode_decimal
decimal_loses_sign p scale n e =
    rw e
      (ground (arith, decode-encode_length_prefixed (big_bytes (negsuc n)), set_bytes_drops_sign n))

short_record_panics :
    (fs : Fields) (rest : Bytes) → decode_log_step fs (0 ∷ 0 ∷ 0 ∷ 0 ∷ 0 ∷ rest) ≡ panic
unfolding decode_log_step le_uint le_value
short_record_panics fs rest =
    let long : ltb (length (0 ∷ 0 ∷ 0 ∷ 0 ∷ 0 ∷ rest)) 5 ≡ false = le→ltb _ 5 (omega arith) in
    let inside : ltb (length (0 ∷ 0 ∷ 0 ∷ 0 ∷ 0 ∷ rest)) 4 ≡ false = le→ltb _ 4 (omega arith) in
    rw long (rw inside refl)

-- Records that begin with one of declared length 0 and attributes 0 make decodeLogRecords panic.
pub decode_log_records_panics :
    (fs : Fields) (rest : Bytes) → decode_log_records fs (0 ∷ 0 ∷ 0 ∷ 0 ∷ 0 ∷ rest) ≡ panic
unfolding decode_log_records decode_log_loop
decode_log_records_panics fs rest = rw (short_record_panics fs rest)

-- A payload of 48 bytes or more with magic 0 and a length field below 13 makes decodeLogBatch panic.
pub decode_log_batch_panics :
    (payload : Bytes)
    → 48 ≤ length payload
    → get_or payload 12 0 ≡ 0
    → le_uint 4 (drop 8 payload) < 13
    → decode_log_batch payload ≡ panic
unfolding decode_log_batch
decode_log_batch_panics payload long magic short =
    let size = le_uint 4 (drop 8 payload) + 12 in
    let long' : ltb (length payload) 48 ≡ false = le→ltb _ 48 long in
    let inside : ltb (length payload) size ≡ false = le→ltb _ size (omega arith) in
    let before_crc : ltb size 25 ≡ true = lt→ltb size 25 (omega arith) in
    rw long' (rw magic (rw inside (rw before_crc)))

one_byte : (b : ℕ) (bs : Bytes) → b < 128 → read_uvarint (b ∷ bs) ≡ ok (0 + b * 2 ^ 0, 1)
unfolding read_uvarint uvarint uvarint_loop
one_byte b bs h = ground arith

two_bytes :
    (precision : ℤ) (b c : ℕ) (rest : Bytes)
    → leb_ℤ precision (pos 3) ≡ false
    → b < 128
    → c < 128
    → (compacted_timestamp_size precision (b ∷ c ∷ rest) ≡ ok 2)
      × (decode_timestamp precision (take 2 (b ∷ c ∷ rest)) false ≡ err Error.too_short)
unfolding compacted_timestamp_size decode_timestamp
two_bytes p b c rest e hb hc =
    (rw e (rw (one_byte b (c ∷ rest) hb) (rw (one_byte c rest hc) refl)), rw e refl)

-- In the compacted format a timestamp with a precision over 3 and milliseconds below 128 is measured
-- as 2 bytes, which are too short to decode.
pub compacted_timestamp_fails :
    (precision : ℤ) (ms nanos : ℕ) (rest : Bytes)
    → leb_ℤ precision (pos 3) ≡ false
    → ms < 128
    → (compacted_timestamp_size precision (encode_timestamp (ms, nanos) precision ++ rest) ≡ ok 2)
      × (decode_timestamp precision (take 2 (encode_timestamp (ms, nanos) precision ++ rest)) false
          ≡ err Error.too_short)
unfolding encode_timestamp encode_fixed64 le_bytes
compacted_timestamp_fails p ms nanos rest e h =
    rw e (two_bytes p (ms % 256) (ms / 256 % 256) _ e (omega arith) (omega arith))
