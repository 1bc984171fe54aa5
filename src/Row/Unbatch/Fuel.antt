-- ===== src/Row/Unbatch/Fuel.antt =====
-- The loops of decodeLogRecords and DecodeLogRecordBatchRows on any payload, against their rounds as
-- relations that know no bound.
use fluss_go_client.Prelude.{
  ℕ, zero, suc, ◌+◌, ◌≤◌, ◌<◌, ◌≡◌, refl, ap, Bool, true, false, not, ltb, ◌==◌, arith, List, [],
  ◌∷◌, ◌++◌, length, get_or, take, drop, length-drop,
}
use fluss_go_client.Result.{Result, panic, err, ok, ok_injective, reject, ◌>>=◌, >>=-eq-ok}
use fluss_go_client.Bytes.{Bytes, le_uint}
use fluss_go_client.Row.Types.{Fields, Error}
use fluss_go_client.Row.Value.{Items}
use fluss_go_client.Row.Read.{decode_row}
use fluss_go_client.Row.Unbatch.{
  check_slice, decode_log_step, decode_log_loop, decode_log_records, decode_log_batch,
  decode_batches, decode_log_record_batch_rows,
}
use fluss_go_client.Row.Crc.{checksum}

not_rejected : (t : Bool) (e : Error) → reject t e ≡ ok tt → t ≡ false
not_rejected true e h = cc
not_rejected false e h = refl

in_order : (t : Bool) → check_slice t ≡ ok tt → t ≡ false
in_order true h = cc
in_order false h = refl

step_shorter :
    (fs : Fields) (bs rest : Bytes) (row : Items)
    → decode_log_step fs bs ≡ ok (row, rest)
    → length rest < length bs
unfolding decode_log_step
step_shorter fs bs rest row h =
    let (a, e1, h1) = >>=-eq-ok (reject (ltb (length bs) 5) Error.truncated) _ h in
    let (b, e2, h2) =
      >>=-eq-ok (reject (ltb (length bs) (4 + le_uint 4 bs)) Error.truncated) _ h1 in
    let (c, e3, h3) = >>=-eq-ok (reject (not (get_or bs 4 0 == 0)) Error.bad_attributes) _ h2 in
    let (d, e4, h4) = >>=-eq-ok (check_slice (ltb (4 + le_uint 4 bs) 5)) _ h3 in
    let (v, e5, h5) = >>=-eq-ok (decode_row fs (drop 5 (take (4 + le_uint 4 bs) bs)) true) _ h4 in
    let same : length (drop (4 + le_uint 4 bs) bs) ≡ length rest =
      ap (λ p. length (p.1)) (ok_injective h5) in
    let long = not_rejected (ltb (length bs) 5) Error.truncated e1 in
    ground (arith, same, long, length-drop (4 + le_uint 4 bs) bs)

-- `decodeLogRecords` from an offset on, round by round as in the source, to its result. A run is finite,
-- and no run ends because a bound is used up.
pub data RecordsRun (fs : Fields) : Bytes → Result Error (List Items) → Type 0 where
  finished : RecordsRun fs [] (ok [])
  failed :
      (b : ℕ) (bs : Bytes) (e : Error)
      → decode_log_step fs (b ∷ bs) ≡ err e
      → RecordsRun fs (b ∷ bs) (err e)
  panicked :
      (b : ℕ) (bs : Bytes) → decode_log_step fs (b ∷ bs) ≡ panic → RecordsRun fs (b ∷ bs) panic
  round :
      (b : ℕ) (bs rest : Bytes) (row : Items) (result : Result Error (List Items))
      → decode_log_step fs (b ∷ bs) ≡ ok (row, rest)
      → RecordsRun fs rest result
      → RecordsRun fs (b ∷ bs) (result >>= λ rows. ok (row ∷ rows))

-- `DecodeLogRecordBatchRows` in the same way, each batch with a run over its records.
pub data BatchesRun (fs : Fields) : Bytes → Result Error (List Items) → Type 0 where
  finished : BatchesRun fs [] (ok [])
  batch_failed :
      (b : ℕ) (bs : Bytes) (e : Error)
      → decode_log_batch (b ∷ bs) ≡ err e
      → BatchesRun fs (b ∷ bs) (err e)
  batch_panicked :
      (b : ℕ) (bs : Bytes) → decode_log_batch (b ∷ bs) ≡ panic → BatchesRun fs (b ∷ bs) panic
  records_failed :
      (b : ℕ) (bs records : Bytes) (size : ℕ) (e : Error)
      → decode_log_batch (b ∷ bs) ≡ ok (size, records)
      → RecordsRun fs records (err e)
      → BatchesRun fs (b ∷ bs) (err e)
  records_panicked :
      (b : ℕ) (bs records : Bytes) (size : ℕ)
      → decode_log_batch (b ∷ bs) ≡ ok (size, records)
      → RecordsRun fs records panic
      → BatchesRun fs (b ∷ bs) panic
  round :
      (b : ℕ) (bs records : Bytes) (size : ℕ) (decoded : List Items)
      (result : Result Error (List Items))
      → decode_log_batch (b ∷ bs) ≡ ok (size, records)
      → RecordsRun fs records (ok decoded)
      → BatchesRun fs (drop size (b ∷ bs)) result
      → BatchesRun fs (b ∷ bs) (result >>= λ rows. ok (decoded ++ rows))

-- A round, with the run behind it.
after_step :
    (fs : Fields) (f b : ℕ) (bs : Bytes) (step : Result Error (Items × Bytes))
    → decode_log_step fs (b ∷ bs) ≡ step
    → ((row : Items) (rest : Bytes)
        → step ≡ ok (row, rest)
        → RecordsRun fs rest (decode_log_loop f fs rest))
    → RecordsRun fs (b ∷ bs) (step >>= λ x. decode_log_loop f fs (x.1) >>= λ rows. ok (x.0 ∷ rows))
after_step fs f b bs panic e behind = RecordsRun.panicked b bs e
after_step fs f b bs (err x) e behind = RecordsRun.failed b bs x e
after_step fs f b bs (ok (row, rest)) e behind =
    RecordsRun.round b bs rest row (decode_log_loop f fs rest) e (behind row rest refl)

decode_log_loop-Run :
    (fs : Fields) (f : ℕ) (bs : Bytes) → length bs ≤ f → RecordsRun fs bs (decode_log_loop f fs bs)
unfolding decode_log_loop
decode_log_loop-Run fs f [] p = RecordsRun.finished
decode_log_loop-Run fs zero (b ∷ bs) p = absurd (omega arith)
decode_log_loop-Run fs (suc f) (b ∷ bs) p =
    after_step fs f b bs (decode_log_step fs (b ∷ bs)) refl (λ row rest e.
      let shorter = step_shorter fs (b ∷ bs) rest row e in
      decode_log_loop-Run fs f rest (omega (arith, shorter)))

decode_log_records-Run :
    (fs : Fields) (payload : Bytes) → RecordsRun fs payload (decode_log_records fs payload)
unfolding decode_log_records
decode_log_records-Run fs payload = decode_log_loop-Run fs (length payload) payload (omega arith)

batch_size : (bs records : Bytes) (size : ℕ) → decode_log_batch bs ≡ ok (size, records) → 48 ≤ size
unfolding decode_log_batch
batch_size bs records size h =
    let n = le_uint 4 (drop 8 bs) + 12 in
    let (a, e1, h1) = >>=-eq-ok (reject (ltb (length bs) 48) Error.too_short) _ h in
    let (b, e2, h2) = >>=-eq-ok (reject (not (get_or bs 12 0 == 0)) Error.bad_magic) _ h1 in
    let (c, e3, h3) = >>=-eq-ok (reject (ltb (length bs) n) Error.truncated) _ h2 in
    let (d, e4, h4) = >>=-eq-ok (check_slice (ltb n 25)) _ h3 in
    let (e, e5, h5) =
      >>=-eq-ok
        (reject (not (le_uint 4 (drop 21 bs) == checksum (drop 25 (take n bs)))) Error.bad_crc) _
        h4 in
    let (f, e6, h6) = >>=-eq-ok (check_slice (ltb n 48)) _ h5 in
    let same : n ≡ size = ap (λ p. p.0) (ok_injective h6) in
    let long = in_order (ltb n 48) e6 in ground (arith, same, long)

-- A batch whose records gave a result, with the run behind it.
after_records :
    (fs : Fields) (f b : ℕ) (bs records : Bytes) (size : ℕ) (decoded : Result Error (List Items))
    → decode_log_batch (b ∷ bs) ≡ ok (size, records)
    → RecordsRun fs records decoded
    → BatchesRun fs (drop size (b ∷ bs)) (decode_batches f fs (drop size (b ∷ bs)))
    → BatchesRun fs
        (b ∷ bs)
        (decoded >>= λ d. decode_batches f fs (drop size (b ∷ bs)) >>= λ rows. ok (d ++ rows))
after_records fs f b bs records size panic e run behind =
    BatchesRun.records_panicked b bs records size e run
after_records fs f b bs records size (err x) e run behind =
    BatchesRun.records_failed b bs records size x e run
after_records fs f b bs records size (ok decoded) e run behind =
    BatchesRun.round b bs records size decoded (decode_batches f fs (drop size (b ∷ bs))) e run
      behind

after_batch :
    (fs : Fields) (f b : ℕ) (bs : Bytes) (batch : Result Error (ℕ × Bytes))
    → decode_log_batch (b ∷ bs) ≡ batch
    → ((size : ℕ) (records : Bytes)
        → batch ≡ ok (size, records)
        → BatchesRun fs (drop size (b ∷ bs)) (decode_batches f fs (drop size (b ∷ bs))))
    → BatchesRun fs (b ∷ bs) (
        batch >>= λ x. decode_log_records fs (x.1) >>= λ d.
        decode_batches f fs (drop (x.0) (b ∷ bs)) >>= λ rows. ok (d ++ rows))
after_batch fs f b bs panic e behind = BatchesRun.batch_panicked b bs e
after_batch fs f b bs (err x) e behind = BatchesRun.batch_failed b bs x e
after_batch fs f b bs (ok (size, records)) e behind =
    after_records fs f b bs records size (decode_log_records fs records) e
      (decode_log_records-Run fs records) (behind size records refl)

decode_batches-Run :
    (fs : Fields) (f : ℕ) (bs : Bytes) → length bs ≤ f → BatchesRun fs bs (decode_batches f fs bs)
unfolding decode_batches
decode_batches-Run fs f [] p = BatchesRun.finished
decode_batches-Run fs zero (b ∷ bs) p = absurd (omega arith)
decode_batches-Run fs (suc f) (b ∷ bs) p =
    after_batch fs f b bs (decode_log_batch (b ∷ bs)) refl (λ size records e.
      let large = batch_size (b ∷ bs) records size e in
      let left = length-drop size (b ∷ bs) in
      decode_batches-Run fs f (drop size (b ∷ bs)) (omega (arith, large, left)))

-- On any payload, the rounds of decodeLogRecords and of DecodeLogRecordBatchRows, as relations without
-- a bound on the rounds, come to an end with rows, an error or a panic of a round itself, and their
-- result is what the bounded functions give: no result is due to the bound.
pub decode_log_record_batch_rows_ends :
    (fs : Fields) (payload : Bytes)
    → RecordsRun fs payload (decode_log_records fs payload)
      × BatchesRun fs payload (decode_log_record_batch_rows fs payload)
unfolding decode_log_record_batch_rows
decode_log_record_batch_rows_ends fs payload = (
  decode_log_records-Run fs payload,
  decode_batches-Run fs (length payload) payload (omega arith),
)
