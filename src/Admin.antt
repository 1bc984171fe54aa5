-- ===== src/Admin.antt =====
-- client/admin.go, with RefreshMetadata of client/client.go: the calls of the admin client go to the
-- coordinator, or to the first endpoint while none is known. How a request is sent is a parameter.
pub mod Databases
pub mod Tables
pub mod Partitions
pub mod Snapshots
pub mod Acls
pub mod Cluster
mod Runs
use fluss_go_client.Prelude.{Option, none, some, List, [], ◌∷◌}
use fluss_go_client.Result.{Result, ok, err, panic, map_error}
use fluss_go_client.Bytes.{Bytes}
use fluss_go_client.Metadata.Cache.{TablePath, ServerNode, TableInfo, Cache, address, set_table}
use fluss_go_client.Client.{MetadataResponse, or_zero, or_empty, ingest_metadata}
use fluss_go_client.Table.Retry.{GoError}
use fluss_go_client.Table.Send.{on_ok, GetTableInfoResponse, Net, route_error}

module _ {W : Type 0} (net : Net W) (endpoint : Bytes) where
  abbrev pub State : Type 0
  State = W × Cache

  abbrev pub ingest_answer :
      W → Cache → Result GoError MetadataResponse → State × Result GoError Unit
  ingest_answer w c panic = ((w, c), panic)
  ingest_answer w c (err e) = ((w, c), err e)
  ingest_answer w c (ok resp) =
      let (c', done) = ingest_metadata resp c in ((w, c'), map_error route_error done)

  -- The coordinator's address, or the first endpoint.
  abbrev pub coordinator_address : Option ServerNode → Bytes
  coordinator_address none = endpoint
  coordinator_address (some node) = address node

  -- `RefreshMetadata` without partition ids.
  unfoldable pub refresh_metadata : State → List TablePath → State × Result GoError Unit
  refresh_metadata (w, c) paths =
      let (w', answer) = net.get_metadata w (coordinator_address c.coordinator) paths in
      ingest_answer w' c answer

  -- `invokeAny`, for a call that is sent with `invoke`.
  abbrev pub invoke_any :
      {Req Resp : Type 0}
      → (W → Bytes → Req → W × Result GoError Resp)
      → State
      → Req
      → State × Result GoError Resp
  invoke_any invoke (w, c) req =
      let (w', answer) = invoke w (coordinator_address c.coordinator) req in ((w', c), answer)

  -- `invokeCoordinator`: it looks for a coordinator first where none is known.
  unfoldable pub invoke_coordinator :
      {Req Resp : Type 0}
      → (W → Bytes → Req → W × Result GoError Resp)
      → State
      → Req
      → State × Result GoError Resp
  invoke_coordinator invoke (w, c) req = elim c.coordinator [
    | some node ↦ invoke_any invoke (w, c) req
    | none ↦
        let (s', done) = refresh_metadata (w, c) [] in on_ok s' done (λ u. invoke_any invoke s' req)
  ]

  abbrev pub table_info : TablePath → GetTableInfoResponse → TableInfo
  table_info path r = record {
    path = path;
    id = or_zero r.table_id;
    schema_id = or_zero r.schema_id;
    table_json = or_empty r.table_json;
    created_time = or_zero r.created_time;
    modified_time = or_zero r.modified_time;
    remote_data_dir = [];
  }

  abbrev pub keep_info :
      TablePath → State × Result GoError GetTableInfoResponse → State × Result GoError TableInfo
  keep_info path (s, panic) = (s, panic)
  keep_info path (s, err e) = (s, err e)
  keep_info path ((w, c), ok r) = ((w, set_table (table_info path r) c), ok (table_info path r))

  -- `GetTableInfo`, which keeps the info in the cache.
  unfoldable pub get_table_info : State → TablePath → State × Result GoError TableInfo
  get_table_info s path = keep_info path (invoke_any net.get_table_info s path)

-- What a call makes of its answer.
abbrev pub answered : {S A B : Type 0} → (A → B) → S × Result GoError A → S × Result GoError B
answered f (s, panic) = (s, panic)
answered f (s, err e) = (s, err e)
answered f (s, ok a) = (s, ok (f a))
