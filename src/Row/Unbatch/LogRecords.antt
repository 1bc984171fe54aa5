-- ===== src/Row/Unbatch/LogRecords.antt =====
-- Log records and sequences of log batches, read back as rows.
use fluss_go_client.Prelude.{
  ℕ, zero, suc, ◌+◌, ◌%◌, ◌^◌, ◌<◌, ◌≤◌, ◌≡◌, refl, ap, sym, ◌∙◌, true, false, ltb, le→ltb, arith,
  List, [], ◌∷◌, ◌++◌, append-nil, length, get_or, drop, length-append, take-append, drop-append,
}
use fluss_go_client.Result.{ok, ok_injective, >>=-eq-ok}
use fluss_go_client.Bytes.{Bytes, le_bytes, le_uint}
use fluss_go_client.Bytes.Fixed.{le_uint-le_bytes}
use fluss_go_client.Row.Types.{Fields}
use fluss_go_client.Row.Value.{Items, Numbers}
use fluss_go_client.Row.Encode.{encode_row}
use fluss_go_client.Row.Read.{decode_row}
use fluss_go_client.Row.Batch.{
  LogBatchOptions, encode_log_batch, encode_log_record, encode_log_record_batch,
}
use fluss_go_client.Row.Unbatch.{
  decode_log_batch, decode_log_step, decode_log_loop, decode_log_records, decode_log_record_batch,
  decode_batches, decode_log_record_batch_rows,
}
use fluss_go_client.Row.Unbatch.LogRoundTrip.{
  decode_log_batch-encode_log_batch, length-encode_log_batch,
}
use fluss_go_client.Row.RoundTrip.Typed.{TypedFields}
use fluss_go_client.Row.RoundTrip.Indexed.{decode_row-encode_row}

-- One record: a length, no attributes and a row.
module _ (row rest : Bytes) where
  record_bytes : Bytes
  record_bytes = le_bytes 4 ((1 + length row) % 2 ^ 32) ++ (0 ∷ row)

  length-record_bytes : length record_bytes ≡ 5 + length row
  unfolding record_bytes le_bytes
  length-record_bytes = omega arith

  record_length : le_uint 4 (record_bytes ++ rest) ≡ (1 + length row) % 2 ^ 32
  unfolding record_bytes le_bytes
  record_length = le_uint-le_bytes 4 ((1 + length row) % 2 ^ 32) _ (omega arith)

  attributes : get_or (record_bytes ++ rest) 4 0 ≡ 0
  unfolding record_bytes le_bytes
  attributes = refl

  drop_to_row : drop 5 record_bytes ≡ row
  unfolding record_bytes le_bytes
  drop_to_row = refl

  step_record :
      (fs : Fields) (vs : Items)
      → 5 + length row < 2 ^ 32
      → decode_row fs row true ≡ ok vs
      → decode_log_step fs (record_bytes ++ rest) ≡ ok (vs, rest)
  unfolding decode_log_step
  step_record fs vs h e =
      let total = length-append record_bytes rest in
      let size : 4 + le_uint 4 (record_bytes ++ rest) ≡ length record_bytes =
        omega (arith, record_length, length-record_bytes) in
      let long : ltb (length (record_bytes ++ rest)) 5 ≡ false =
        le→ltb _ 5 (omega (arith, total, length-record_bytes)) in
      let inside : ltb (length (record_bytes ++ rest)) (length record_bytes) ≡ false =
        le→ltb _ _ (omega (arith, total)) in
      let ordered : ltb (length record_bytes) 5 ≡ false =
        le→ltb _ 5 (omega (arith, length-record_bytes)) in
      rw long (
        rw size (
          rw inside (
            rw attributes (
              rw ordered (
                rw (take-append record_bytes rest)
                  (rw drop_to_row (rw e (rw (drop-append record_bytes rest)))))))))

loop_step :
    (fuel : ℕ) (fs : Fields) (bs rest : Bytes) (vs : Items) (rows : List Items)
    → 0 < length bs
    → decode_log_step fs bs ≡ ok (vs, rest)
    → decode_log_loop fuel fs rest ≡ ok rows
    → decode_log_loop (suc fuel) fs bs ≡ ok (vs ∷ rows)
unfolding decode_log_loop
loop_step fuel fs [] rest vs rows h e1 e2 = absurd (omega arith)
loop_step fuel fs (b ∷ bs) rest vs rows h e1 e2 = rw e1 (rw e2)

-- The records of a batch that one row was encoded in.
records_of_row :
    (fs : Fields) (vs : Items) (row : Bytes)
    → 5 + length row < 2 ^ 32
    → decode_row fs row true ≡ ok vs
    → decode_log_records fs (record_bytes row []) ≡ ok (vs ∷ [])
unfolding decode_log_records
records_of_row fs vs row h e =
    let size = length-record_bytes row [] in
    let pay : length (record_bytes row []) ≡ suc (4 + length row) = omega (arith, size) in
    rw pay (
      loop_step (4 + length row) fs (record_bytes row []) [] vs [] (omega (arith, size))
        (rw (append-nil (record_bytes row [])) at (step_record row [] fs vs h e))
        (unfold decode_log_loop in refl))

encode_log_record-eq-ok :
    (num : Numbers) (fs : Fields) (vs : Items) (payload : Bytes)
    → encode_log_record num fs vs true ≡ ok payload
    → (row : Bytes) × (encode_row num fs vs true ≡ ok row) × (payload ≡ record_bytes row [])
unfolding encode_log_record record_bytes
encode_log_record-eq-ok num fs vs payload e =
    let (row, e1, e2) = >>=-eq-ok (encode_row num fs vs true) _ e in
    (row, e1, sym (ok_injective e2))

-- What is known of an encoded batch: its records, which read back, and its size.
record BatchOf (fs : Fields) (vs : Items) (bs : Bytes) : Type 0 where
  records : Bytes
  batch_read : (rest : Bytes) → decode_log_batch (bs ++ rest) ≡ ok (length bs, records)
  records_read : decode_log_records fs records ≡ ok (vs ∷ [])
  not_empty : 0 < length bs

batch_of :
    (num : Numbers) (fs : Fields) (vs : Items) (opts : LogBatchOptions) (bs : Bytes)
    → TypedFields fs vs
    → opts.indexed ≡ true
    → encode_log_record_batch num fs vs opts ≡ ok bs
    → length bs < 2 ^ 32
    → BatchOf fs vs bs
unfolding encode_log_record_batch
batch_of num fs vs opts bs t indexed e h =
    let (payload, e1, e2) = >>=-eq-ok (encode_log_record num fs vs opts.indexed) _ e in
    let (row, e3, e4) = encode_log_record-eq-ok num fs vs payload (rw indexed at e1) in
    let size = length-encode_log_batch opts.schema_id payload opts.writer_state in
    let shape : bs ≡ encode_log_batch opts.schema_id payload opts.writer_state =
      sym (ok_injective e2) in
    let total : length bs ≡ 48 + length payload = ap length shape ∙ size in
    let inner : length payload ≡ 5 + length row = ap length e4 ∙ length-record_bytes row [] in
    record {
      records = payload;
      batch_read = λ rest. rw shape (
          decode_log_batch-encode_log_batch opts.schema_id payload rest opts.writer_state
            (omega (arith, total)));
      records_read = rw e4 (
          records_of_row fs vs row (omega (arith, total, inner))
            (decode_row-encode_row num fs vs row t e3 (omega (arith, total, inner))));
      not_empty = omega (arith, total);
    }

-- DecodeLogRecordBatch reads back the typed values which EncodeLogRecordBatch wrote in the indexed
-- format in fewer than 2^32 bytes.
pub decode-encode_log_record_batch :
    (num : Numbers) (fs : Fields) (vs : Items) (opts : LogBatchOptions) (bs : Bytes)
    → TypedFields fs vs
    → opts.indexed ≡ true
    → encode_log_record_batch num fs vs opts ≡ ok bs
    → length bs < 2 ^ 32
    → decode_log_record_batch fs bs ≡ ok vs
unfolding decode_log_record_batch
decode-encode_log_record_batch num fs vs opts bs t indexed e h =
    let b = batch_of num fs vs opts bs t indexed e h in
    rw (rw (append-nil bs) at (b.batch_read [])) (rw b.records_read)

-- A log segment: encoded batches one after the other, and the rows that were encoded.
pub data Segment (num : Numbers) (fs : Fields) : List Items → Bytes → Type 0 where
  stop : Segment num fs [] []
  batch :
      (vs : Items) (vss : List Items) (opts : LogBatchOptions) (bs rest : Bytes)
      → TypedFields fs vs
      → opts.indexed ≡ true
      → encode_log_record_batch num fs vs opts ≡ ok bs
      → length bs < 2 ^ 32
      → Segment num fs vss rest
      → Segment num fs (vs ∷ vss) (bs ++ rest)

batches_step :
    (fuel size : ℕ) (fs : Fields) (bs records : Bytes) (decoded rows : List Items)
    → 0 < length bs
    → decode_log_batch bs ≡ ok (size, records)
    → decode_log_records fs records ≡ ok decoded
    → decode_batches fuel fs (drop size bs) ≡ ok rows
    → decode_batches (suc fuel) fs bs ≡ ok (decoded ++ rows)
unfolding decode_batches
batches_step fuel size fs [] records decoded rows h e1 e2 e3 = absurd (omega arith)
batches_step fuel size fs (b ∷ bs) records decoded rows h e1 e2 e3 = rw e1 (rw e2 (rw e3))

segment_read :
    (num : Numbers) (fs : Fields) (vss : List Items) (payload : Bytes) (fuel : ℕ)
    → Segment num fs vss payload
    → length payload ≤ fuel
    → decode_batches fuel fs payload ≡ ok vss
segment_read num fs vss payload fuel stop h = unfold decode_batches in refl
segment_read num fs vss payload zero (batch vs vss' opts bs rest t i e small s) h =
    let b = batch_of num fs vs opts bs t i e small in
    absurd (omega (arith, length-append bs rest, b.not_empty))
segment_read num fs vss payload (suc fuel) (batch vs vss' opts bs rest t i e small s) h =
    let b = batch_of num fs vs opts bs t i e small in
    let size = length-append bs rest in
    batches_step fuel (length bs) fs (bs ++ rest) b.records (vs ∷ []) vss'
      (omega (arith, size, b.not_empty)) (b.batch_read rest) b.records_read
      (rw (drop-append bs rest)
        (segment_read num fs vss' rest fuel s (omega (arith, size, b.not_empty))))

-- DecodeLogRecordBatchRows reads every row of a log segment in order, that is, of batches below 2^32
-- bytes which EncodeLogRecordBatch wrote one after the other from typed values in the indexed format.
pub decode_log_record_batch_rows_lem :
    (num : Numbers) (fs : Fields) (vss : List Items) (payload : Bytes)
    → Segment num fs vss payload
    → decode_log_record_batch_rows fs payload ≡ ok vss
unfolding decode_log_record_batch_rows
decode_log_record_batch_rows_lem num fs vss payload s =
    segment_read num fs vss payload (length payload) s (omega arith)
