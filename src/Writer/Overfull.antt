-- ===== src/Writer/Overfull.antt =====
-- client/writer.go: restorePending, which puts batches back without a look at the limits.
use fluss_go_client.Prelude.{
  ℕ, ◌≤◌, ◌<◌, ◌≡◌, refl, ap, ◌∙◌, false, arith, [], ◌∷◌, ◌++◌, length, length-append, replicate,
  length-replicate, none,
}
use fluss_go_client.Prelude.Int.{pos}
use fluss_go_client.Writer.Options.{
  BucketRecordBatch, Limits, should_flush_immediately, clone_bucket_record_batches,
}
use fluss_go_client.Writer.Buffer.{State, Round, Begin, is_empty, write_round, begin_flush}
use fluss_go_client.Writer.Interleaving.{
  System, Batches, Reach, here, next, write, begin, restore, start, after_write, after_begin,
  after_restore,
}
use fluss_go_client.Writer.Interleaving.Safety.{clone_same, restore_keeps, write_keeps, begin_keeps}

abbrev pub batch : BucketRecordBatch
batch = record { partition_id = none; bucket_id = pos 0; records = [] }

-- As many batches as the limit go into an empty buffer of an open writer.
buffered_to_limit :
    (l : Limits) (m : ℕ) (s : State) (batches : Batches)
    → l.batches ≡ pos m
    → 2 ≤ m
    → l.bytes ≡ pos 0
    → s.closed ≡ false
    → s.pending ≡ []
    → length batches ≡ m
    → (write_round l s batches).0 ≡ Round.buffered
unfolding write_round should_flush_immediately
buffered_to_limit l m s batches lb two by is_open empty size =
    ground (arith, ap length (clone_same batches), ap length empty)

begin_open :
    (s : State)
    → s.closed ≡ false
    → s.flush_in_flight ≡ false
    → (begin_flush s).0 ≡ Begin.taken s.pending s.pending_bytes
unfolding begin_flush
begin_open s is_open idle = ground arith

not_empty : (batches : Batches) → 2 ≤ length batches → is_empty batches ≡ false
not_empty [] h = absurd (omega arith)
not_empty (b ∷ bs) h = refl

-- With any limit of two batches or more and none on bytes, a run in which a flush fails while Write
-- fills the buffer again ends with more batches than the limit.
pub pending_may_pass_limit :
    (l : Limits) (m : ℕ)
    → l.batches ≡ pos m
    → 2 ≤ m
    → l.bytes ≡ pos 0
    → (y : System) × Reach l y × (m < length y.state.pending)
pending_may_pass_limit l m lb two by =
    let batches : Batches = replicate m batch in
    let size : length batches ≡ m = length-replicate m batch in
    let h1 = buffered_to_limit l m start.state batches lb two by refl refl size in
    let y1 = after_write l start batches in
    let k1 = write_keeps l start.state batches h1 in
    let h2 = begin_open y1.state k1.2 k1.3 in
    let y2 = after_begin y1 y1.state.pending y1.state.pending_bytes in
    let k2 = begin_keeps l y1.state y1.state.pending y1.state.pending_bytes h2 in
    let h3 = buffered_to_limit l m y2.state batches lb two by (k2.4 ∙ k1.2) k2.2 size in
    let y3 = after_write l y2 batches in
    let k3 = write_keeps l y2.state batches h3 in
    let flight : length y1.state.pending ≡ m =
      ap length k1.0 ∙ ap length (clone_same batches) ∙ size in
    let pending : length y3.state.pending ≡ m =
      ap length k3.0
      ∙ ap (λ p. length (p ++ clone_bucket_record_batches batches)) k2.2
      ∙ ap length (clone_same batches)
      ∙ size in
    let k4 = restore_keeps l y3.state y1.state.pending y1.state.pending_bytes in
    (
      after_restore l y3,
      next
          (next (next (next here (write start batches h1)) (begin y1 _ _ h2)) (write y2 batches h3))
          (restore y3 (k3.3 ∙ k2.5) (not_empty y1.state.pending (omega (arith, flight)))),
      omega
          (arith, ap length k4.0, length-append y1.state.pending y3.state.pending, flight, pending),
    )
