-- ===== src/Writer/Runs.antt =====
-- The writers at concrete inputs: a run of the interleaving, and the theorems of the modules applied.
use fluss_go_client.Prelude.{
  ◌≡◌, ◌<◌, ◌⊎◌, refl, ap, true, false, List, [], ◌∷◌, none, some, length, arith,
}
use fluss_go_client.Prelude.Int.{pos, ◌≤ℤ◌}
use fluss_go_client.Writer.Options.{
  BucketRecordBatch, Limits, flush_on_close, should_flush_immediately, bucket_record_batch_bytes,
  clone_bucket_record_batches,
}
use fluss_go_client.Writer.Buffer.{
  Error, State, Round, Begin, new_state, write_round, begin_flush, restore_pending, buffer_batches,
  has_capacity_locked, reset_timer_locked, stop_timer_locked,
}
use fluss_go_client.Writer.Methods.{Outcome, WriteFn, flush, close_with_context, finish_begin}
use fluss_go_client.Writer.Interleaving.{
  System, Reach, here, next, write, begin, start, after_write, after_begin,
}
use fluss_go_client.Writer.Interleaving.Safety.{IsConsistent, Reach-IsConsistent}
use fluss_go_client.Writer.Limits.{write_round_within, close_with_context_settles}
use fluss_go_client.Writer.Overfull.{pending_may_pass_limit}

abbrev three_batches : Limits
three_batches = record {
  batches = pos 3;
  bytes = pos 0;
  linger = pos 10;
  block = false;
  on_close = none;
}

abbrev parcel : List BucketRecordBatch
parcel =
    record { partition_id = none; bucket_id = pos 1; records = 7 ∷ 8 ∷ [] }
    ∷ record { partition_id = some (pos 4); bucket_id = pos 2; records = 9 ∷ [] }
    ∷ []

abbrev holding : State
holding = record {
  pending = parcel;
  pending_bytes = 3;
  closed = false;
  timer = true;
  flush_in_flight = false;
}

abbrev refuses : WriteFn
refuses batches = false

buffered_round : write_round three_batches new_state parcel ≡ (Round.buffered, holding)
unfolding write_round should_flush_immediately has_capacity_locked buffer_batches reset_timer_locked
    stop_timer_locked bucket_record_batch_bytes clone_bucket_record_batches
buffered_round = refl

full_round : write_round three_batches holding parcel ≡ (Round.failed Error.buffer_full, holding)
unfolding write_round should_flush_immediately has_capacity_locked bucket_record_batch_bytes
    clone_bucket_record_batches
full_round = refl

-- The flush fails and its batches are pending again.
failed_flush :
    flush three_batches refuses false holding ≡ (Outcome.failed Error.write_failed, holding)
unfolding flush finish_begin begin_flush restore_pending reset_timer_locked stop_timer_locked
failed_flush = refl

abbrev after_one : System
after_one = after_write three_batches start parcel

one_write : Reach three_batches after_one
one_write = next here (write start parcel (ap (λ r. r.0) buffered_round))

begun_taken :
    (begin_flush after_one.state).0
    ≡ Begin.taken after_one.state.pending after_one.state.pending_bytes
unfolding begin_flush write_round should_flush_immediately has_capacity_locked buffer_batches
    reset_timer_locked stop_timer_locked bucket_record_batch_bytes clone_bucket_record_batches
begun_taken = refl

flushes_on_close : flush_on_close three_batches ≡ true
unfolding flush_on_close
flushes_on_close = refl

abbrev in_flight : System
in_flight = after_begin after_one after_one.state.pending after_one.state.pending_bytes

begun : Reach three_batches in_flight
begun = next one_write (begin after_one _ _ begun_taken)

Reach-IsConsistent_example : IsConsistent three_batches in_flight
Reach-IsConsistent_example = Reach-IsConsistent begun

write_round_within_example :
    (pos (length (write_round three_batches new_state parcel).1.pending) ≤ℤ pos 3)
    × ((pos 0 ≤ℤ pos 0)
        ⊎ (pos (write_round three_batches new_state parcel).1.pending_bytes ≤ℤ pos 0))
write_round_within_example =
    write_round_within three_batches new_state parcel (omega arith) (ap (λ r. r.0) buffered_round)

close_with_context_settles_example :
    (false ≡ true)
      × (close_with_context three_batches refuses false holding
          ≡ (Outcome.failed Error.context_done, holding))
    ⊎ (false ≡ false)
      × (((close_with_context three_batches refuses false holding).0 ≡ Outcome.returned)
            × ((parcel ≡ []) ⊎ (false ≡ true))
            × ((close_with_context three_batches refuses false holding).1.closed ≡ true)
            × ((close_with_context three_batches refuses false holding).1.pending ≡ [])
          ⊎ ((close_with_context three_batches refuses false holding).0
              ≡ Outcome.failed Error.write_failed)
            × (false ≡ false)
            × ((close_with_context three_batches refuses false holding).1.closed ≡ false)
            × ((close_with_context three_batches refuses false holding).1.pending ≡ parcel))
close_with_context_settles_example =
    close_with_context_settles three_batches refuses false holding refl refl flushes_on_close

pending_may_pass_limit_example : (y : System) × Reach three_batches y × (3 < length y.state.pending)
pending_may_pass_limit_example = pending_may_pass_limit three_batches 3 refl (omega arith) refl
