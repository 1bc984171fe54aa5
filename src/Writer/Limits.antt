-- ===== src/Writer/Limits.antt =====
-- client/writer.go: the limits of the options, and how Flush and CloseWithContext end.
use fluss_go_client.Prelude.{
  Bool, ℕ, ◌≡◌, refl, true, false, if◌then◌else◌, arith, List, [], ◌∷◌, length, length-append, ◌⊎◌,
  append-nil, ◌∙◌, inl, inr, Bool-cases,
}
use fluss_go_client.Prelude.Int.{pos, ◌≤ℤ◌}
use fluss_go_client.Writer.Options.{
  BucketRecordBatch, AppendOptions, UpsertOptions, Limits, append_limits, upsert_limits,
  bucket_record_batch_bytes, clone_bucket_record_batches, should_flush_immediately, flush_on_close,
}
use fluss_go_client.Writer.Buffer.{
  Error, State, Round, Begin, write_round, begin_flush, close, has_capacity_locked,
}
use fluss_go_client.Writer.Methods.{
  Outcome, WriteFn, finish_begin, close_after, flush, close_with_context,
}
use fluss_go_client.Writer.Interleaving.Safety.{clone_same, finish_keeps, restore_keeps}

-- Whatever the options say, the writer has room for one batch at least.
pub append_limits_positive : (o : AppendOptions) → pos 1 ≤ℤ (append_limits o).batches
unfolding append_limits
append_limits_positive o = ground arith

pub upsert_limits_positive : (o : UpsertOptions) → pos 1 ≤ℤ (upsert_limits o).batches
unfolding upsert_limits
upsert_limits_positive o = ground arith

-- When Write buffers its batches, the buffer stays within MaxBufferedBatches (1 or more) and within
-- MaxBufferedBytes where that is positive.
pub write_round_within :
    (l : Limits) (s : State) (batches : List BucketRecordBatch)
    → pos 1 ≤ℤ l.batches
    → (write_round l s batches).0 ≡ Round.buffered
    → (pos (length (write_round l s batches).1.pending) ≤ℤ l.batches)
      × ((l.bytes ≤ℤ pos 0) ⊎ (pos (write_round l s batches).1.pending_bytes ≤ℤ l.bytes))
unfolding write_round
write_round_within l s batches one h =
    (ground (arith, length-append s.pending (clone_bucket_record_batches batches)))

-- Write decides in the order: closed, direct, buffered if there is room, full, or a wait.
pub write_round_cases :
    (l : Limits) (s : State) (batches : List BucketRecordBatch)
    → (write_round l s batches).0 ≡ (
        if s.closed
        then Round.failed Error.closed
        else if should_flush_immediately l
        then Round.direct batches
        else if has_capacity_locked l s (length batches) (bucket_record_batch_bytes batches)
        then Round.buffered
        else if l.block
        then Round.waiting
        else Round.failed Error.buffer_full)
unfolding write_round
write_round_cases l s batches = rw (clone_same batches) (ground arith)

-- How a flush that began ends: all was acknowledged (or there was nothing), or all is pending again.
abbrev pub Settled : WriteFn → List BucketRecordBatch → ℕ → Outcome × State → Type 0
Settled send batches n r =
    (r.0 ≡ Outcome.returned)
      × ((batches ≡ []) ⊎ (send batches ≡ true))
      × (r.1.pending ≡ [])
      × (r.1.pending_bytes ≡ 0)
      × (r.1.flush_in_flight ≡ false)
    ⊎ (r.0 ≡ Outcome.failed Error.write_failed)
      × (send batches ≡ false)
      × (r.1.pending ≡ batches)
      × (r.1.pending_bytes ≡ n)
      × (r.1.flush_in_flight ≡ false)
      × (r.1.closed ≡ false)

finish_begin_settles :
    (l : Limits) (send : WriteFn) (batches : List BucketRecordBatch) (n : ℕ) (s : State)
    → s.pending ≡ []
    → s.pending_bytes ≡ 0
    → s.closed ≡ false
    → Settled send batches n (finish_begin l send (Begin.taken batches n, s))
unfolding finish_begin
finish_begin_settles l send [] n s p q o =
    let k = finish_keeps l s in inl (refl, inl refl, k.0 ∙ p, k.1 ∙ q, k.3)
finish_begin_settles l send (b ∷ bs) n s p q o = elim (Bool-cases (send (b ∷ bs))) [
  | inl sent ↦ let k = finish_keeps l s in rw sent (inl (refl, inr refl, k.0 ∙ p, k.1 ∙ q, k.3))
  | inr lost ↦
      let k = restore_keeps l s (b ∷ bs) n in
      rw lost
        (inr (refl, refl, k.0 ∙ rw p (append-nil (b ∷ bs)), omega (arith, k.1, q), k.3, k.2 ∙ o))
]

begin_idle :
    (s : State)
    → s.closed ≡ false
    → s.flush_in_flight ≡ false
    → (s' : State) × (begin_flush s ≡ (Begin.taken s.pending s.pending_bytes, s'))
      × (s'.pending ≡ [])
      × (s'.pending_bytes ≡ 0)
      × (s'.closed ≡ false)
unfolding begin_flush
begin_idle s is_open idle =
    ((begin_flush s).1, ground arith, ground arith, ground arith, ground arith)

-- Flush of an open writer with no other under way and nothing in between sends exactly what is
-- pending: it returns no error and leaves the buffer empty if that is nothing or is acknowledged, and
-- otherwise returns the error with the same batches and bytes pending.
pub flush_settles :
    (l : Limits) (send : WriteFn) (s : State)
    → s.closed ≡ false
    → s.flush_in_flight ≡ false
    → Settled send s.pending s.pending_bytes (flush l send false s)
unfolding flush
flush_settles l send s is_open idle =
    let (s', e, p, q, o) = begin_idle s is_open idle in
    rw e (finish_begin_settles l send s.pending s.pending_bytes s' p q o)

close_after_settles :
    (send : WriteFn) (batches : List BucketRecordBatch) (n : ℕ) (r : Outcome × State)
    → Settled send batches n r
    → ((close_after r).0 ≡ Outcome.returned)
        × ((batches ≡ []) ⊎ (send batches ≡ true))
        × ((close_after r).1.closed ≡ true)
        × ((close_after r).1.pending ≡ [])
      ⊎ ((close_after r).0 ≡ Outcome.failed Error.write_failed)
        × (send batches ≡ false)
        × ((close_after r).1.closed ≡ false)
        × ((close_after r).1.pending ≡ batches)
unfolding close_after close
close_after_settles send batches n (Outcome.returned, s) h = elim h [
  | inl x ↦ inl (refl, x.1, refl, refl)
  | inr x ↦ cc (x.0)
]
close_after_settles send batches n (Outcome.failed e, s) h = elim h [
  | inl x ↦ cc (x.0)
  | inr x ↦ inr (x.0, x.1, x.5, x.2)
]
close_after_settles send batches n (Outcome.blocked, s) h = elim h [
  | inl x ↦ cc (x.0)
  | inr x ↦ cc (x.0)
]

close_flushes :
    (l : Limits) (send : WriteFn) (s : State)
    → s.closed ≡ false
    → flush_on_close l ≡ true
    → close_with_context l send false s ≡ close_after (flush l send false s)
unfolding close_with_context
close_flushes l send s is_open on_close = simp (is_open, on_close)

-- CloseWithContext of an open writer that flushes on close, with no other flush under way and nothing
-- in between, returns the error of its context with nothing changed if that is done. If it is not
-- done, it either returns no error with all that was pending acknowledged and the writer closed and
-- empty, or returns the error of the write with the writer open and all batches kept.
pub close_with_context_settles :
    (l : Limits) (send : WriteFn) (done : Bool) (s : State)
    → s.closed ≡ false
    → s.flush_in_flight ≡ false
    → flush_on_close l ≡ true
    → (done ≡ true) × (close_with_context l send done s ≡ (Outcome.failed Error.context_done, s))
      ⊎ (done ≡ false)
        × (((close_with_context l send done s).0 ≡ Outcome.returned)
              × ((s.pending ≡ []) ⊎ (send s.pending ≡ true))
              × ((close_with_context l send done s).1.closed ≡ true)
              × ((close_with_context l send done s).1.pending ≡ [])
            ⊎ ((close_with_context l send done s).0 ≡ Outcome.failed Error.write_failed)
              × (send s.pending ≡ false)
              × ((close_with_context l send done s).1.closed ≡ false)
              × ((close_with_context l send done s).1.pending ≡ s.pending))
unfolding close_with_context flush close_after
close_with_context_settles l send true s is_open idle on_close =
    inl (refl, rw (is_open, close_with_context) (rw on_close refl))
close_with_context_settles l send false s is_open idle on_close = inr (
  refl,
  rw (close_flushes l send s is_open on_close) (
      close_after_settles send s.pending s.pending_bytes (flush l send false s)
        (flush_settles l send s is_open idle)),
)
