-- ===== src/Writer/Buffer.antt =====
-- client/writer.go: what each method does while it holds the mutex. appendWriterState and
-- upsertWriterState have the same fields and the same code; the options reach it as `Limits`.
use fluss_go_client.Prelude.{
  ℕ, ◌+◌, Bool, true, false, not, ◌&&◌, if◌then◌else◌, List, [], ◌∷◌, ◌++◌, length,
}
use fluss_go_client.Prelude.Int.{pos, leb_ℤ, ltb_ℤ}
use fluss_go_client.Writer.Options.{
  BucketRecordBatch, Limits, should_flush_immediately, bucket_record_batch_bytes,
  clone_bucket_record_batches,
}

pub data Error : Type 0 where
  closed buffer_full deadline_exceeded context_done write_failed : Error

-- `timer` says that `s.timer` is not nil: a timer runs, or its callback is about to flush.
pub record State : Type 0 where
  pub pending : List BucketRecordBatch
  pub pending_bytes : ℕ
  pub closed : Bool
  pub timer : Bool
  pub flush_in_flight : Bool

-- `NewAppendWriter`, `NewUpsertWriter`
abbrev pub new_state : State
new_state = record {
  pending = [];
  pending_bytes = 0;
  closed = false;
  timer = false;
  flush_in_flight = false;
}

unfoldable pub has_capacity_locked : Limits → State → ℕ → ℕ → Bool
has_capacity_locked l s count bytes =
    if ltb_ℤ (pos 0) l.batches && ltb_ℤ l.batches (pos (length s.pending + count))
    then false
    else if ltb_ℤ (pos 0) l.bytes && ltb_ℤ l.bytes (pos (s.pending_bytes + bytes))
    then false
    else true

unfoldable pub stop_timer_locked : State → State
stop_timer_locked s = record s { timer = false }

unfoldable pub reset_timer_locked : Limits → State → State
unfolding stop_timer_locked
reset_timer_locked l s =
    let s' = stop_timer_locked s in
    if leb_ℤ l.linger (pos 0) then s' else record s' { timer = true }

-- How one round of Write's loop ends: in an error, in a direct write after the mutex is released, with
-- the batches in the buffer, or in a wait on the condition.
pub data Round : Type 0 where
  failed : Error → Round
  direct : List BucketRecordBatch → Round
  buffered : Round
  waiting : Round

unfoldable pub buffer_batches : Limits → State → List BucketRecordBatch → State
unfolding reset_timer_locked
buffer_batches l s cloned =
    let s' = record s {
      pending = s.pending ++ cloned;
      pending_bytes = s.pending_bytes + bucket_record_batch_bytes cloned;
    } in
    if ltb_ℤ (pos 0) l.linger && not s.flush_in_flight then reset_timer_locked l s' else s'

unfoldable pub write_round : Limits → State → List BucketRecordBatch → Round × State
unfolding has_capacity_locked buffer_batches
write_round l s batches =
    let cloned = clone_bucket_record_batches batches in
    if s.closed
    then (Round.failed Error.closed, s)
    else if should_flush_immediately l
    then (Round.direct cloned, s)
    else if has_capacity_locked l s (length cloned) (bucket_record_batch_bytes cloned)
    then (Round.buffered, buffer_batches l s cloned)
    else if not l.block
    then (Round.failed Error.buffer_full, s)
    else (Round.waiting, s)

pub data Begin : Type 0 where
  refused : Error → Begin
  taken : List BucketRecordBatch → ℕ → Begin

unfoldable pub begin_flush : State → Begin × State
unfolding stop_timer_locked
begin_flush s =
    if s.closed
    then (Begin.refused Error.closed, s)
    else let s' = stop_timer_locked s in
      if s.flush_in_flight then (Begin.refused Error.deadline_exceeded, s') else (
        Begin.taken s.pending s.pending_bytes,
        record s' { pending = []; pending_bytes = 0; flush_in_flight = true },
      )

unfoldable pub restore_pending : Limits → List BucketRecordBatch → ℕ → State → State
unfolding reset_timer_locked
restore_pending l batches bytes s =
    let s' = record s {
      pending = batches ++ s.pending;
      pending_bytes = s.pending_bytes + bytes;
      flush_in_flight = false;
    } in
    if ltb_ℤ (pos 0) l.linger && not s.closed then reset_timer_locked l s' else s'

abbrev pub is_empty : List BucketRecordBatch → Bool
is_empty [] = true
is_empty (b ∷ bs) = false

unfoldable pub finish_flush : Limits → State → State
unfolding reset_timer_locked
finish_flush l s =
    let s' = record s { flush_in_flight = false } in
    if ltb_ℤ (pos 0) l.linger && (not (is_empty s.pending) && not s.closed)
    then reset_timer_locked l s'
    else s'

unfoldable pub close : State → State
unfolding stop_timer_locked
close s =
    let s' = stop_timer_locked (record s { closed = true }) in
    record s' { pending = []; pending_bytes = 0 }
