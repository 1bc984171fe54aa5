-- ===== src/Table/Send/Failing.antt =====
-- client/table.go: appendLogOnce where all leaders answer, and where the request to one of them fails.
use fluss_go_client.Prelude.{ℕ, ◌≡◌, refl, ap, true, some, List, [], ◌∷◌, ◌++◌}
use fluss_go_client.Prelude.Int.{ℤ}
use fluss_go_client.Result.{ok, err}
use fluss_go_client.Bytes.{Bytes}
use fluss_go_client.Writer.Options.{BucketRecordBatch, clone_bucket_record_batches}
use fluss_go_client.Metadata.Cache.{TablePath, TableInfo, Cache}
use fluss_go_client.Table.Retry.{
  GoError, BucketWriteError, ProduceResult, WriteError, terminal_error, Server, Round, sort_results,
  is_retryable_write_route_err, merge_produce_results, after_once, round, attempts, append_log,
}
use fluss_go_client.Table.Send.{
  Groups, Net, PbProduceLogRespForBucket, ProduceLogRequest, parse_produce_results,
}
use fluss_go_client.Table.Send.Routes.{ensure_table_info, group_batches_by_leader}
use fluss_go_client.Table.Send.Once.{Outcome, send_loop, append_log_once}

module _ {W : Type 0} (net : Net W) (endpoint : Bytes) (path : TablePath)
    (acks timeout_ms table_id : ℤ) where
  abbrev pub request : List BucketRecordBatch → ProduceLogRequest
  request bs = record {
    acks = acks;
    table_id = table_id;
    timeout_ms = timeout_ms;
    buckets_req = bs;
  }

  -- Requests to leaders that all answer, with the results and the failures of the answers in their order.
  pub data Answered : W → Groups → List ProduceResult → List BucketWriteError → W → Type 0 where
    stop : (w : W) → Answered w [] [] [] w
    next :
        (w w1 w2 : W) (addr : Bytes) (bs : List BucketRecordBatch)
        (items : List PbProduceLogRespForBucket) (gs : Groups) (out : List ProduceResult)
        (failures : List BucketWriteError)
        → net.produce_log w addr (request bs) ≡ (w1, ok items)
        → Answered w1 gs out failures w2
        → Answered w
            ((addr, bs) ∷ gs)
            ((parse_produce_results items).0 ++ out)
            ((parse_produce_results items).1 ++ failures)
            w2

  send_loop-Answered :
      (w w' : W) (gs : Groups) (out : List ProduceResult) (failures : List BucketWriteError)
      → Answered w gs out failures w'
      → send_loop net endpoint path w acks timeout_ms table_id gs ≡ (w', ok (out, failures))
  unfolding send_loop
  send_loop-Answered _ _ _ _ _ (stop w) = refl
  send_loop-Answered _ _ _ _ _ (next w w1 w2 addr bs items gs out failures e h) =
      rw e (rw (send_loop-Answered w1 w2 gs out failures h) refl)

  send_loop_loses :
      (w w1 w2 : W) (front : Groups) (out : List ProduceResult) (failures : List BucketWriteError)
      (addr : Bytes) (bs : List BucketRecordBatch) (back : Groups) (e : GoError)
      → Answered w front out failures w1
      → net.produce_log w1 addr (request bs) ≡ (w2, err e)
      → send_loop net endpoint path w acks timeout_ms table_id (front ++ ((addr, bs) ∷ back))
        ≡ (w2, err e)
  unfolding send_loop
  send_loop_loses _ _ w2 _ _ _ addr bs back e (stop w) f = rw f refl
  send_loop_loses _ _ w2 _ _ _ addr bs back e (next w w1 w3 a cs items gs out failures g h) f =
      rw g (rw (send_loop_loses w1 w3 w2 gs out failures addr bs back e h f) refl)

-- appendLogOnce up to the requests: the id of the table, the groups and the walk over them.
pub record Prepared {W : Type 0} (net : Net W) (endpoint : Bytes) (path : TablePath) (s : W × Cache)
    (buckets : List BucketRecordBatch) (table_id : ℤ) (w : W) (c : Cache) (walked : Groups)
    : Type 0 where
  pub between : W × Cache
  pub grouped : Groups
  pub found : TableInfo
  pub info : ensure_table_info net endpoint path s ≡ (between, ok found)
  pub id : found.id ≡ table_id
  pub groups :
      group_batches_by_leader net endpoint path between table_id [] buckets ≡ ((w, c), ok grouped)
  pub walk : net.walk grouped ≡ walked

module _ {W : Type 0} (net : Net W) (endpoint : Bytes) (path : TablePath)
    (acks timeout_ms table_id : ℤ) where
  -- If the id of the table and the groups are found and every leader answers, appendLogOnce returns the
  -- results of all answers sorted by bucket id, with all their failures as a partial error, or with no
  -- error where there are none.
  pub append_log_once-Answered :
      (s : W × Cache) (buckets : List BucketRecordBatch) (w w' : W) (c : Cache) (walked : Groups)
      (out : List ProduceResult) (failures : List BucketWriteError)
      → Prepared net endpoint path s buckets table_id w c walked
      → Answered net endpoint path acks timeout_ms table_id w walked out failures w'
      → append_log_once net endpoint path s acks timeout_ms buckets
        ≡ ((w', c), Outcome.returns (sort_results out) (terminal_error failures))
  unfolding append_log_once
  append_log_once-Answered s buckets w w' c walked out failures p h = rw p.info (
      rw p.id (
        rw p.groups (
          rw p.walk (
            rw
              (send_loop-Answered net endpoint path acks timeout_ms table_id w w' walked out
                failures h)
              refl))))

  append_log_once_loses :
      (s : W × Cache) (buckets : List BucketRecordBatch) (w w1 w2 : W) (c : Cache)
      (front back : Groups) (addr : Bytes) (bs : List BucketRecordBatch) (out : List ProduceResult)
      (failures : List BucketWriteError) (e : GoError)
      → Prepared net endpoint path s buckets table_id w c (front ++ ((addr, bs) ∷ back))
      → Answered net endpoint path acks timeout_ms table_id w front out failures w1
      → net.produce_log w1 addr (request net endpoint path acks timeout_ms table_id bs)
        ≡ (w2, err e)
      → append_log_once net endpoint path s acks timeout_ms buckets
        ≡ ((w2, c), Outcome.returns [] (some (WriteError.whole e)))
  unfolding append_log_once
  append_log_once_loses s buckets w w1 w2 c front back addr bs out failures e p h f = rw p.info (
      rw p.id (
        rw p.groups (
          rw p.walk (
            rw
              (send_loop_loses net endpoint path acks timeout_ms table_id w w1 w2 front out failures
                addr bs back e h f)
              refl))))

-- The results and the error that the retries see.
abbrev pub Sees : Server → ℕ → List BucketRecordBatch → Outcome → Type 0
Sees server attempt buckets Outcome.panics = ⊥
Sees server attempt buckets (Outcome.returns out e) =
    server.append_log_once attempt buckets ≡ (out, e)

first_round_repeats :
    (server : Server) (pending : List BucketRecordBatch) (e : GoError)
    → server.append_log_once 0 pending ≡ ([], some (WriteError.whole e))
    → is_retryable_write_route_err e ≡ true
    → server.refresh_metadata 0 ≡ true
    → round server 0 [] pending ≡ Round.again [] pending
unfolding round after_once merge_produce_results sort_results
first_round_repeats server pending e h retryable refreshed = rw h (rw retryable (rw refreshed refl))

-- If some leaders have answered the requests of a first attempt of AppendLog and the request to the
-- next one fails with a retryable error, and the refresh succeeds, the second attempt starts without
-- results and sends all batches again, those answered included.
pub append_log_resends :
    {W : Type 0} (net : Net W) (endpoint : Bytes) (path : TablePath) (acks timeout_ms table_id : ℤ)
    (server : Server) (s : W × Cache) (buckets : List BucketRecordBatch) (w w1 w2 : W) (c : Cache)
    (front back : Groups) (addr : Bytes) (bs : List BucketRecordBatch) (out : List ProduceResult)
    (failures : List BucketWriteError) (e : GoError)
    → Prepared net endpoint path s
        (clone_bucket_record_batches buckets)
        table_id
        w
        c
        (front ++ ((addr, bs) ∷ back))
    → Answered net endpoint path acks timeout_ms table_id w front out failures w1
    → net.produce_log w1 addr (request net endpoint path acks timeout_ms table_id bs) ≡ (w2, err e)
    → Sees server 0
        (clone_bucket_record_batches buckets)
        (append_log_once net endpoint path s acks timeout_ms
          (clone_bucket_record_batches buckets)).1
    → is_retryable_write_route_err e ≡ true
    → server.refresh_metadata 0 ≡ true
    → append_log server buckets ≡ attempts server 1 1 [] (clone_bucket_record_batches buckets)
unfolding append_log attempts
append_log_resends net endpoint path acks timeout_ms table_id server s buckets w w1 w2 c front back
      addr bs out failures e p h f sees retryable refreshed =
    let pending = clone_bucket_record_batches buckets in
    let lost =
      append_log_once_loses net endpoint path acks timeout_ms table_id s pending w w1 w2 c front
        back addr bs out failures e p h f in
    let seen : server.append_log_once 0 pending ≡ ([], some (WriteError.whole e)) =
      rw (ap (λ x. x.1) lost) at sees in
    rw (first_round_repeats server pending e seen retryable refreshed, attempts) refl
