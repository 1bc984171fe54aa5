-- ===== src/Writer/Interleaving.antt =====
-- Goroutines that share one writer: each critical section is a step, and writeFn runs between two of
-- them. The history says what the buffer took, what writeFn acknowledged and what Close dropped.
pub mod Safety
use fluss_go_client.Prelude.{ℕ, ◌≡◌, true, false, List, [], ◌++◌}
use fluss_go_client.Writer.Options.{
  BucketRecordBatch, Limits, bucket_record_batch_bytes, clone_bucket_record_batches,
}
use fluss_go_client.Writer.Buffer.{
  Error, State, Round, Begin, new_state, write_round, begin_flush, restore_pending, finish_flush,
  close, is_empty,
}

abbrev pub Batches : Type 0
Batches = List BucketRecordBatch

-- `flight` is what Flush took with `beginFlush` and has not settled yet, with its bytes.
pub record System : Type 0 where
  pub state : State
  pub flight : Batches
  pub flight_bytes : ℕ
  pub accepted : Batches
  pub delivered : Batches
  pub discarded : Batches

abbrev pub start : System
start = record {
  state = new_state;
  flight = [];
  flight_bytes = 0;
  accepted = [];
  delivered = [];
  discarded = [];
}

abbrev pub after_write : Limits → System → Batches → System
after_write l y batches = record y {
  state = (write_round l y.state batches).1;
  accepted = y.accepted ++ batches;
}

abbrev pub after_begin : System → Batches → ℕ → System
after_begin y batches bytes = record y {
  state = (begin_flush y.state).1;
  flight = batches;
  flight_bytes = bytes;
}

-- writeFn returned no error (or there was nothing to send).
abbrev pub after_finish : Limits → System → System
after_finish l y = record y {
  state = finish_flush l y.state;
  flight = [];
  flight_bytes = 0;
  delivered = y.delivered ++ y.flight;
}

-- writeFn failed.
abbrev pub after_restore : Limits → System → System
after_restore l y = record y {
  state = restore_pending l y.flight y.flight_bytes y.state;
  flight = [];
  flight_bytes = 0;
}

abbrev pub after_close : System → System
after_close y = record y { state = close y.state; discarded = y.state.pending ++ y.discarded }

-- A Write that fails, waits or writes directly leaves the buffer as it is, and is no step here.
pub data Step (l : Limits) : System → System → Type 0 where
  write :
      (y : System) (batches : Batches)
      → (write_round l y.state batches).0 ≡ Round.buffered
      → Step l y (after_write l y batches)
  begin :
      (y : System) (batches : Batches) (bytes : ℕ)
      → (begin_flush y.state).0 ≡ Begin.taken batches bytes
      → Step l y (after_begin y batches bytes)
  refuse :
      (y : System) (e : Error)
      → (begin_flush y.state).0 ≡ Begin.refused e
      → Step l y (record y { state = (begin_flush y.state).1 })
  finish : (y : System) → y.state.flush_in_flight ≡ true → Step l y (after_finish l y)
  restore :
      (y : System)
      → y.state.flush_in_flight ≡ true
      → is_empty y.flight ≡ false
      → Step l y (after_restore l y)
  shut : (y : System) → Step l y (after_close y)

pub data Reach (l : Limits) : System → Type 0 where
  here : Reach l start
  next : {y z : System} → Reach l y → Step l y z → Reach l z
