-- ===== src/Writer/Methods.antt =====
-- client/writer.go: Write, Flush and CloseWithContext of AppendWriter and UpsertWriter, each run without
-- interruption. `done` says that the context is done, and `write` is the client's writeFn.
use fluss_go_client.Prelude.{ℕ, Bool, true, false, if◌then◌else◌, Option, List, [], ◌∷◌}
use fluss_go_client.Prelude.Int.{ℤ}
use fluss_go_client.Writer.Options.{
  BucketRecordBatch, AppendOptions, UpsertOptions, Limits, append_defaults, upsert_defaults,
  append_limits, upsert_limits, flush_on_close,
}
use fluss_go_client.Writer.Buffer.{
  Error, State, Round, Begin, write_round, begin_flush, restore_pending, finish_flush, close,
}

-- What a call returns: no error, an error, or (for Write alone) a wait that another goroutine ends.
pub data Outcome : Type 0 where
  returned : Outcome
  failed : Error → Outcome
  blocked : Outcome

-- Whether writeFn returned no error. Its results are passed on unread.
abbrev pub WriteFn : Type 0
WriteFn = List BucketRecordBatch → Bool

abbrev outcome_of : Bool → Outcome
outcome_of true = Outcome.returned
outcome_of false = Outcome.failed Error.write_failed

unfoldable pub finish_round : WriteFn → Round × State → Outcome × State
finish_round write (Round.failed e, s) = (Outcome.failed e, s)
finish_round write (Round.direct batches, s) = (outcome_of (write batches), s)
finish_round write (Round.buffered, s) = (Outcome.returned, s)
finish_round write (Round.waiting, s) = (Outcome.blocked, s)

unfoldable pub write : Limits → WriteFn → Bool → List BucketRecordBatch → State → Outcome × State
write l send done batches s =
    if done then (Outcome.failed Error.context_done, s) else elim batches [
      | [] ↦ (Outcome.returned, s)
      | b ∷ bs ↦ finish_round send (write_round l s (b ∷ bs))
    ]

-- After `beginFlush`: nothing to send, or the call of writeFn and what follows it.
unfoldable pub finish_begin : Limits → WriteFn → Begin × State → Outcome × State
finish_begin l send (Begin.refused e, s) = (Outcome.failed e, s)
finish_begin l send (Begin.taken [] bytes, s) = (Outcome.returned, finish_flush l s)
finish_begin l send (Begin.taken (b ∷ bs) bytes, s) =
    if send (b ∷ bs)
    then (Outcome.returned, finish_flush l s)
    else (Outcome.failed Error.write_failed, restore_pending l (b ∷ bs) bytes s)

unfoldable pub flush : Limits → WriteFn → Bool → State → Outcome × State
flush l send done s =
    if done then (Outcome.failed Error.context_done, s) else finish_begin l send (begin_flush s)

-- `if _, err := w.Flush(ctx); err != nil { return err }; return w.Close()`
unfoldable pub close_after : Outcome × State → Outcome × State
close_after (Outcome.returned, s) = (Outcome.returned, close s)
close_after r = r

unfoldable pub close_with_context : Limits → WriteFn → Bool → State → Outcome × State
close_with_context l send done s =
    if s.closed
    then (Outcome.returned, s)
    else if flush_on_close l
    then close_after (flush l send done s)
    else (Outcome.returned, close s)

-- The table's AppendLog and UpsertKV, as far as the writers depend on them.
abbrev pub AppendFn : Type 0
AppendFn = ℤ → ℤ → WriteFn

abbrev pub UpsertFn : Type 0
UpsertFn = ℤ → ℤ → Option (List ℕ) → Option ℕ → WriteFn

unfoldable pub append_write :
    AppendOptions → AppendFn → Bool → List BucketRecordBatch → State → Outcome × State
unfolding write append_limits append_defaults
append_write o send =
    let d = append_defaults o in write (append_limits o) (send d.acks d.timeout_ms)

unfoldable pub append_flush : AppendOptions → AppendFn → Bool → State → Outcome × State
unfolding flush append_limits append_defaults
append_flush o send =
    let d = append_defaults o in flush (append_limits o) (send d.acks d.timeout_ms)

unfoldable pub append_close_with_context : AppendOptions → AppendFn → Bool → State → Outcome × State
unfolding close_with_context append_limits append_defaults
append_close_with_context o send =
    let d = append_defaults o in close_with_context (append_limits o) (send d.acks d.timeout_ms)

unfoldable pub upsert_write :
    UpsertOptions → UpsertFn → Bool → List BucketRecordBatch → State → Outcome × State
unfolding write upsert_limits upsert_defaults
upsert_write o send =
    let d = upsert_defaults o in
    write (upsert_limits o) (send d.acks d.timeout_ms d.target_columns d.agg_mode)

unfoldable pub upsert_flush : UpsertOptions → UpsertFn → Bool → State → Outcome × State
unfolding flush upsert_limits upsert_defaults
upsert_flush o send =
    let d = upsert_defaults o in
    flush (upsert_limits o) (send d.acks d.timeout_ms d.target_columns d.agg_mode)

unfoldable pub upsert_close_with_context : UpsertOptions → UpsertFn → Bool → State → Outcome × State
unfolding close_with_context upsert_limits upsert_defaults
upsert_close_with_context o send =
    let d = upsert_defaults o in
    close_with_context (upsert_limits o) (send d.acks d.timeout_ms d.target_columns d.agg_mode)
