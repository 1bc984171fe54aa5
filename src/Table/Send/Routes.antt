-- ===== src/Table/Send/Routes.antt =====
-- client/table.go: ensureTableInfo, routeFor and the grouping by leaders.
use fluss_go_client.Prelude.{Option, none, some, List, [], ◌∷◌}
use fluss_go_client.Prelude.Int.{ℤ}
use fluss_go_client.Result.{Result, ok, err, panic, map_error}
use fluss_go_client.Bytes.{Bytes}
use fluss_go_client.Writer.Options.{BucketRecordBatch}
use fluss_go_client.Metadata.Cache.{TablePath, ServerNode, TableInfo, Cache, address, table}
use fluss_go_client.Client
use fluss_go_client.Client.{MetadataResponse, or_zero, or_empty, ingest_metadata, route_for}
use fluss_go_client.Admin.{refresh_metadata, get_table_info}
use fluss_go_client.Table.Retry.{GoError}
use fluss_go_client.Table.Send.{on_ok, add_to_group, Groups, GroupsOf, Net, route_error}

abbrev pub without_dir : TableInfo → TableInfo
without_dir info = record info { remote_data_dir = [] }

module _ {W : Type 0} (net : Net W) (endpoint : Bytes) (path : TablePath) where
  abbrev pub State : Type 0
  State = W × Cache

  -- `ensureTableInfo`
  unfoldable pub ensure_table_info : State → State × Result GoError TableInfo
  ensure_table_info (w, c) = elim (table c path) [
    | some info ↦ ((w, c), ok (without_dir info))
    | none ↦ get_table_info net endpoint (w, c) path
  ]

  abbrev pub after_refresh :
      ℤ
      → Option ℤ
      → ℤ
      → Client.Error
      → State × Result GoError Unit
      → State × Result GoError ServerNode
  after_refresh table_id partition_id bucket_id e (s, panic) = (s, panic)
  after_refresh table_id partition_id bucket_id e (s, err x) = (s, err (route_error e))
  after_refresh table_id partition_id bucket_id e (s, ok u) =
      (s, map_error route_error (route_for (s.1) table_id partition_id bucket_id))

  abbrev pub or_refresh :
      State → ℤ → Option ℤ → ℤ → Result Client.Error ServerNode → State × Result GoError ServerNode
  or_refresh s table_id partition_id bucket_id (ok node) = (s, ok node)
  or_refresh s table_id partition_id bucket_id panic = (s, panic)
  or_refresh s table_id partition_id bucket_id (err e) =
      after_refresh table_id partition_id bucket_id e (refresh_metadata net endpoint s (path ∷ []))

  -- `TableClient.routeFor`
  unfoldable pub table_route_for : State → ℤ → Option ℤ → ℤ → State × Result GoError ServerNode
  table_route_for s table_id partition_id bucket_id =
      or_refresh s table_id partition_id bucket_id (route_for (s.1) table_id partition_id bucket_id)

  -- The loops of `groupBatchesByLeader`, `groupLookupsByLeader` and `groupFetchesByLeader`, which differ
  -- in what they group.
  unfoldable pub group_by_leader :
      {A : Type 0}
      → (A → Option ℤ)
      → (A → ℤ)
      → State
      → ℤ
      → GroupsOf A
      → List A
      → State × Result GoError (GroupsOf A)
  group_by_leader partition_of bucket_of s table_id grouped [] = (s, ok grouped)
  group_by_leader partition_of bucket_of s table_id grouped (b ∷ bs) =
      let (s', found) = table_route_for s table_id (partition_of b) (bucket_of b) in
      on_ok s' found (λ node.
        group_by_leader partition_of bucket_of s' table_id (add_to_group grouped (address node) b)
          bs)

  -- `groupBatchesByLeader`
  unfoldable pub group_batches_by_leader :
      State → ℤ → Groups → List BucketRecordBatch → State × Result GoError Groups
  unfolding group_by_leader
  group_batches_by_leader s table_id grouped bs =
      group_by_leader (λ b. b.partition_id) (λ b. b.bucket_id) s table_id grouped bs
