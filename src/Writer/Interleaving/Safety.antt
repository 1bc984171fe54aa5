-- ===== src/Writer/Interleaving/Safety.antt =====
-- client/writer.go: an invariant of the writer and its history under the steps of its goroutines.
use fluss_go_client.Prelude.{
  ℕ, ◌+◌, ◌≡◌, refl, ap, sym, ◌∙◌, true, false, arith, List, [], ◌∷◌, ◌++◌, append_assoc,
  append-nil, inl, inr, ◌⊎◌,
}
use fluss_go_client.Prelude.Int.{pos, ltb_ℤ}
use fluss_go_client.Writer.Options.{
  BucketRecordBatch, Limits, bucket_record_batch_bytes, clone_bucket_record_batches,
}
use fluss_go_client.Writer.Buffer.{
  Error, State, Round, Begin, write_round, begin_flush, restore_pending, finish_flush, close,
  is_empty,
}
use fluss_go_client.Writer.Interleaving.{
  System, Step, write, begin, refuse, finish, restore, shut, Reach, here, next, start, after_write,
  after_begin, after_finish, after_restore, after_close, Batches,
}

pub clone_same : (bs : List BucketRecordBatch) → clone_bucket_record_batches bs ≡ bs
unfolding clone_bucket_record_batches
clone_same [] = refl
clone_same (b ∷ bs) = ap (λ l. b ∷ l) (clone_same bs)

pub bytes-append :
    (xs ys : List BucketRecordBatch)
    → bucket_record_batch_bytes (xs ++ ys)
      ≡ bucket_record_batch_bytes xs + bucket_record_batch_bytes ys
unfolding bucket_record_batch_bytes
bytes-append [] ys = omega arith
bytes-append (x ∷ xs) ys = omega (arith, bytes-append xs ys)

-- No timer is needed: lingering is off, the writer is closed, nothing is pending, or a flush is under
-- way, which will set one.
abbrev pub Scheduled : Limits → State → Type 0
Scheduled l s =
    ltb_ℤ (pos 0) l.linger ≡ true
    → s.closed ≡ false
    → is_empty s.pending ≡ false
    → (s.timer ≡ true) ⊎ (s.flush_in_flight ≡ true)

-- The invariant of a writer and its history.
pub record IsConsistent (l : Limits) (y : System) : Type 0 where
  pub history : y.accepted ≡ y.delivered ++ (y.flight ++ (y.state.pending ++ y.discarded))
  pub bytes : y.state.pending_bytes ≡ bucket_record_batch_bytes y.state.pending
  pub flight_bytes : y.flight_bytes ≡ bucket_record_batch_bytes y.flight
  pub grounded : y.state.flush_in_flight ≡ false → y.flight ≡ []
  pub open_keeps : y.state.closed ≡ false → y.discarded ≡ []
  pub scheduled : Scheduled l y.state

start-IsConsistent : (l : Limits) → IsConsistent l start
unfolding bucket_record_batch_bytes
start-IsConsistent l = record {
  history = refl;
  bytes = refl;
  flight_bytes = refl;
  grounded = λ h. refl;
  open_keeps = λ h. refl;
  scheduled = λ a b c. cc;
}

close-IsConsistent : (l : Limits) (y : System) → IsConsistent l y → IsConsistent l (after_close y)
unfolding close bucket_record_batch_bytes
close-IsConsistent l y c = record {
  history = c.history;
  bytes = refl;
  flight_bytes = c.flight_bytes;
  grounded = c.grounded;
  open_keeps = λ h. cc;
  scheduled = λ a b d. cc;
}

module _ (l : Limits) (s : State) where
  pub finish_keeps :
      ((finish_flush l s).pending ≡ s.pending)
      × ((finish_flush l s).pending_bytes ≡ s.pending_bytes)
      × ((finish_flush l s).closed ≡ s.closed)
      × ((finish_flush l s).flush_in_flight ≡ false)
  unfolding finish_flush
  finish_keeps = ground arith

  finish-Scheduled : Scheduled l (finish_flush l s)
  unfolding finish_flush
  finish-Scheduled = ground arith

  pub restore_keeps :
      (batches : Batches) (n : ℕ)
      → ((restore_pending l batches n s).pending ≡ batches ++ s.pending)
        × ((restore_pending l batches n s).pending_bytes ≡ s.pending_bytes + n)
        × ((restore_pending l batches n s).closed ≡ s.closed)
        × ((restore_pending l batches n s).flush_in_flight ≡ false)
  unfolding restore_pending
  restore_keeps batches n = ground arith

  restore-Scheduled : (batches : Batches) (n : ℕ) → Scheduled l (restore_pending l batches n s)
  unfolding restore_pending
  restore-Scheduled batches n = ground arith

  pub write_keeps :
      (batches : Batches)
      → (write_round l s batches).0 ≡ Round.buffered
      → ((write_round l s batches).1.pending ≡ s.pending ++ clone_bucket_record_batches batches)
        × ((write_round l s batches).1.pending_bytes
            ≡ s.pending_bytes + bucket_record_batch_bytes (clone_bucket_record_batches batches))
        × ((write_round l s batches).1.closed ≡ false)
        × ((write_round l s batches).1.flush_in_flight ≡ s.flush_in_flight)
        × (s.closed ≡ false)
  unfolding write_round
  write_keeps batches h = ground arith

  write-Scheduled :
      (batches : Batches)
      → (write_round l s batches).0 ≡ Round.buffered
      → Scheduled l (write_round l s batches).1
  unfolding write_round
  write-Scheduled batches h = ground arith

  pub begin_keeps :
      (batches : Batches) (n : ℕ)
      → (begin_flush s).0 ≡ Begin.taken batches n
      → (batches ≡ s.pending)
        × (n ≡ s.pending_bytes)
        × ((begin_flush s).1.pending ≡ [])
        × ((begin_flush s).1.pending_bytes ≡ 0)
        × ((begin_flush s).1.closed ≡ s.closed)
        × ((begin_flush s).1.flush_in_flight ≡ true)
        × (s.flush_in_flight ≡ false)
  unfolding begin_flush
  begin_keeps batches n h = ground arith

  refuse_keeps :
      (e : Error)
      → (begin_flush s).0 ≡ Begin.refused e
      → ((begin_flush s).1.pending ≡ s.pending)
        × ((begin_flush s).1.pending_bytes ≡ s.pending_bytes)
        × ((begin_flush s).1.closed ≡ s.closed)
        × ((begin_flush s).1.flush_in_flight ≡ s.flush_in_flight)
        × ((s.closed ≡ true) ⊎ (s.flush_in_flight ≡ true))
  unfolding begin_flush
  refuse_keeps e h = ground arith

finish-IsConsistent :
    (l : Limits) (y : System) → IsConsistent l y → IsConsistent l (after_finish l y)
finish-IsConsistent l y c =
    let k = finish_keeps l y.state in
    record {
      history =
          c.history
          ∙ sym (append_assoc y.delivered y.flight (y.state.pending ++ y.discarded))
          ∙ rw k.0;
      bytes = rw k.0 (k.1 ∙ c.bytes);
      flight_bytes = unfold bucket_record_batch_bytes in refl;
      grounded = λ h. refl;
      open_keeps = λ h. c.open_keeps (sym k.2 ∙ h);
      scheduled = finish-Scheduled l y.state;
    }

restore-IsConsistent :
    (l : Limits) (y : System) → IsConsistent l y → IsConsistent l (after_restore l y)
restore-IsConsistent l y c =
    let k = restore_keeps l y.state y.flight y.flight_bytes in
    record {
      history = c.history ∙ rw k.0 (rw append_assoc);
      bytes =
          rw k.0
            (omega (arith, k.1, c.bytes, c.flight_bytes, bytes-append y.flight y.state.pending));
      flight_bytes = unfold bucket_record_batch_bytes in refl;
      grounded = λ h. refl;
      open_keeps = λ h. c.open_keeps (sym k.2 ∙ h);
      scheduled = restore-Scheduled l y.state y.flight y.flight_bytes;
    }

history_write :
    {accepted discarded : Batches} (delivered flight pending batches : Batches)
    → accepted ≡ delivered ++ (flight ++ (pending ++ discarded))
    → discarded ≡ []
    → accepted ++ batches ≡ delivered ++ (flight ++ ((pending ++ batches) ++ discarded))
history_write delivered flight pending batches e d = rw e (rw d (simp (append-nil, append_assoc)))

history_begin :
    {accepted flight : Batches} (delivered pending discarded : Batches)
    → accepted ≡ delivered ++ (flight ++ (pending ++ discarded))
    → flight ≡ []
    → accepted ≡ delivered ++ (pending ++ discarded)
history_begin delivered pending discarded e f = rw f at e

write-IsConsistent :
    (l : Limits) (y : System) (batches : Batches)
    → (write_round l y.state batches).0 ≡ Round.buffered
    → IsConsistent l y
    → IsConsistent l (after_write l y batches)
write-IsConsistent l y batches h c =
    let k = write_keeps l y.state batches h in
    let none_dropped = c.open_keeps k.4 in
    let same = clone_same batches in
    record {
      history = rw k.0 (
          rw same
            (history_write y.delivered y.flight y.state.pending batches c.history none_dropped));
      bytes = rw k.0 (
          omega (
            arith,
            k.1,
            c.bytes,
            bytes-append y.state.pending (clone_bucket_record_batches batches),
          ));
      flight_bytes = c.flight_bytes;
      grounded = λ g. c.grounded (sym k.3 ∙ g);
      open_keeps = λ g. none_dropped;
      scheduled = write-Scheduled l y.state batches h;
    }

begin-IsConsistent :
    (l : Limits) (y : System) (batches : Batches) (n : ℕ)
    → (begin_flush y.state).0 ≡ Begin.taken batches n
    → IsConsistent l y
    → IsConsistent l (after_begin y batches n)
begin-IsConsistent l y batches n h c =
    let k = begin_keeps l y.state batches n h in
    record {
      history = rw k.0 (
          rw k.2
            (history_begin y.delivered y.state.pending y.discarded c.history (c.grounded k.6)));
      bytes = rw k.2 (k.3 ∙ unfold bucket_record_batch_bytes in refl);
      flight_bytes = rw k.0 (k.1 ∙ c.bytes);
      grounded = λ g. cc;
      open_keeps = λ g. c.open_keeps (sym k.4 ∙ g);
      scheduled = λ a b d. inr k.5;
    }

refuse-IsConsistent :
    (l : Limits) (y : System) (e : Error)
    → (begin_flush y.state).0 ≡ Begin.refused e
    → IsConsistent l y
    → IsConsistent l (record y { state = (begin_flush y.state).1 })
refuse-IsConsistent l y e h c =
    let k = refuse_keeps l y.state e h in
    record {
      history = c.history ∙ rw k.0;
      bytes = rw k.0 (k.1 ∙ c.bytes);
      flight_bytes = c.flight_bytes;
      grounded = λ g. c.grounded (sym k.3 ∙ g);
      open_keeps = λ g. c.open_keeps (sym k.2 ∙ g);
      scheduled = λ a b d. elim k.4 [ inl x ↦ cc (x, k.2, b) | inr x ↦ inr (k.3 ∙ x) ];
    }

Step-IsConsistent : {l : Limits} {y z : System} → Step l y z → IsConsistent l y → IsConsistent l z
Step-IsConsistent {l} (write y batches h) c = write-IsConsistent l y batches h c
Step-IsConsistent {l} (begin y batches n h) c = begin-IsConsistent l y batches n h c
Step-IsConsistent {l} (refuse y e h) c = refuse-IsConsistent l y e h c
Step-IsConsistent {l} (finish y h) c = finish-IsConsistent l y c
Step-IsConsistent {l} (restore y h n) c = restore-IsConsistent l y c
Step-IsConsistent {l} (shut y) c = close-IsConsistent l y c

-- Under any interleaving of the critical sections of Write, Flush and Close, what the buffer took is,
-- in order, what was acknowledged, what is in flight, what is pending and what Close dropped; the byte
-- counts are right; only a flush under way holds batches; only a closed writer has dropped any; and a
-- lingering open writer with pending batches has a timer or a flush under way.
pub Reach-IsConsistent : {l : Limits} {y : System} → Reach l y → IsConsistent l y
Reach-IsConsistent {l} here = start-IsConsistent l
Reach-IsConsistent (next r s) = Step-IsConsistent s (Reach-IsConsistent r)
