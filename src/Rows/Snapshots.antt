-- ===== src/Rows/Snapshots.antt =====
-- client/row.go: SnapshotScanRows, with SnapshotFetcher of client/snapshot_fetcher.go. The fetchers, the
-- database that the files make and the removal of their directory are a parameter (`Store`).
use fluss_go_client.Prelude.{
  ◌==◌, not, Bool, if◌then◌else◌, Option, none, some, List, [], ◌∷◌, length,
}
use fluss_go_client.Prelude.Int.{ℤ, pos, eq_ℤ}
use fluss_go_client.Prelude.Maps.{find}
use fluss_go_client.Result.{Result, ok, err, ◌>>=◌, ◌>>◌, reject, map_error}
use fluss_go_client.Bytes.{Bytes}
use fluss_go_client.Row.Types.{Fields, field_count}
use fluss_go_client.Row.Value.{Items, Numbers}
use fluss_go_client.Metadata.Cache.{TablePath, Cache}
use fluss_go_client.Metadata.TableDescriptor.{TableDescriptor}
use fluss_go_client.Metadata.Schema.Parser
use fluss_go_client.Metadata.Schema.Descriptor.{ColumnJson, parse_schema}
use fluss_go_client.Snapshot
use fluss_go_client.Snapshot.{DecodePlan, Plans, Reader, is_empty, read_all}
use fluss_go_client.Admin.Tables.{GetTableSchemaRequest, GetTableSchemaResponse, get_table_schema}
use fluss_go_client.Admin.Snapshots.{
  KvSnapshots, SnapshotFile, GetLatestKvSnapshotsRequest, GetLatestKvSnapshotsResponse,
  GetKvSnapshotMetadataRequest, GetKvSnapshotMetadataResponse, get_latest_kv_snapshots,
  get_kv_snapshot_metadata,
}
use fluss_go_client.Table.Retry.{GoError}
use fluss_go_client.Table.Send.{Net, on_ok}
use fluss_go_client.Rows
use fluss_go_client.Rows.{bits_of}
use fluss_go_client.Rows.Encoding.{table_of, kv_encoding}

pub record SnapshotScanOptions : Type 0 where
  pub partition_name : Option Bytes
  pub partition_id : Option ℤ
  pub bucket_id : ℤ
  pub snapshot_id : Option ℤ
  pub target_columns : List Bytes

-- The errors of getting a schema and its columns, without the texts of this file.
pub data SchemaError : Type 0 where
  get : ℤ → GoError → SchemaError
  parse : ℤ → Parser.Error → SchemaError
  column_count : SchemaError

pub data SnapshotError : Type 0 where
  table : Rows.Error → SnapshotError
  latest metadata download open_failed fetcher : GoError → SnapshotError
  no_snapshot : ℤ → SnapshotError
  schemas : SchemaError → SnapshotError
  read : Snapshot.Error SchemaError → SnapshotError

-- `FetchAll` of a fetcher, which gives the directory of the files.
abbrev pub SnapshotFetcher : Type 0 → Type 0
SnapshotFetcher W = W → List SnapshotFile → W × Result GoError Bytes

-- `configured` is the fetcher of the client's configuration, and `default_fetcher` what NewDefaultFetcher
-- makes of it. `open_snapshot` gives the values of the database, and whether its iterator ends in an error.
pub record Store (W : Type 0) : Type 0 where
  pub configured : Option (SnapshotFetcher W)
  pub default_fetcher : Result GoError (SnapshotFetcher W)
  pub open_snapshot : W → Bytes → W × Result GoError (List Bytes × Bool)
  pub close : W → W
  pub remove_all : W → Bytes → W

abbrev pub configured_or : {A : Type 0} → Option A → Result GoError A → Result SnapshotError A
configured_or (some fetch) made = ok fetch
configured_or none made = map_error SnapshotError.fetcher made

-- `Client.SnapshotFetcher`
unfoldable pub snapshot_fetcher : {W : Type 0} → Store W → Result SnapshotError (SnapshotFetcher W)
snapshot_fetcher store = configured_or store.configured store.default_fetcher

-- The calls of the admin client.
pub record SnapshotCalls (W : Type 0) : Type 0 where
  pub latest :
      W → Bytes → GetLatestKvSnapshotsRequest → W × Result GoError GetLatestKvSnapshotsResponse
  pub metadata :
      W → Bytes → GetKvSnapshotMetadataRequest → W × Result GoError GetKvSnapshotMetadataResponse
  pub schema : W → Bytes → GetTableSchemaRequest → W × Result GoError GetTableSchemaResponse

-- A pointer of the options, or another one.
abbrev pub or_else : Option ℤ → Option ℤ → Option ℤ
or_else (some a) b = some a
or_else none b = b

-- `m[k]` of a map to pointers, which is nil for a missing key.
abbrev pub pointer_at : Option (Option ℤ) → Option ℤ
pointer_at none = none
pointer_at (some p) = p

abbrev pub given : ℤ → Option ℤ → Result SnapshotError ℤ
given bucket_id none = err (SnapshotError.no_snapshot bucket_id)
given bucket_id (some id) = ok id

unfoldable pub snapshot_id_of : SnapshotScanOptions → KvSnapshots → Result SnapshotError ℤ
snapshot_id_of opts snapshots =
    given opts.bucket_id
      (or_else opts.snapshot_id (pointer_at (find eq_ℤ snapshots.snapshot_ids opts.bucket_id)))

abbrev pub target_plan : Fields → List Bytes → DecodePlan
target_plan target columns = record {
  decode_schema = target;
  target_schema = target;
  source_columns = columns;
  target_columns = columns;
}

-- The plans that the reader is opened with.
abbrev pub target_plans : ℤ → Fields → List Bytes → Plans
target_plans id target columns = (bits_of id, target_plan target columns) ∷ []

abbrev pub with_count : Fields → Result SchemaError (List Bytes) → Result SchemaError (List Bytes)
with_count target found = do
  columns ← found
  reject (not (length columns == field_count target)) SchemaError.column_count
  ok columns

module _ {W : Type 0} (net : Net W) (endpoint : Bytes) (path : TablePath)
    (unmarshal : Bytes → Option TableDescriptor)
    (unmarshal_schema : Bytes → Option (List ColumnJson)) (num : Numbers) (calls : SnapshotCalls W)
    (store : Store W) where
  abbrev pub State : Type 0
  State = W × Cache

  -- `Schema` and `ParseSchema`
  unfoldable pub parsed_schema : State → ℤ → State × Result SchemaError (Fields × List Bytes)
  parsed_schema s id =
      let (s', found) = get_table_schema net endpoint calls.schema s path (some id) in
      (
        s',
        map_error (SchemaError.get id) found >>= (λ info.
            map_error (SchemaError.parse id) (parse_schema unmarshal_schema info.json)),
      )

  -- The target columns of `snapshotDecodePlans`.
  unfoldable pub target_columns_of :
      State → ℤ → Fields → List Bytes → State × Result SchemaError (List Bytes)
  target_columns_of s id target (c ∷ cs) = (s, with_count target (ok (c ∷ cs)))
  target_columns_of s id target [] =
      let (s', found) = parsed_schema s id in
      (s', with_count target (found >>= (λ schema. ok (schema.1))))

  -- `loadPlan`, at the state in which the reader is opened: what the schema of an id is does not change.
  unfoldable pub load_source : State → ℤ → Fields → List Bytes → ℤ → Result SchemaError DecodePlan
  load_source s target_id target columns id =
      if eq_ℤ id target_id
      then ok (target_plan target columns)
      else (parsed_schema s id).1 >>= (λ schema. ok (record {
        decode_schema = schema.0;
        target_schema = target;
        source_columns = schema.1;
        target_columns = columns;
      }))

  abbrev pub snapshot_reader : State → ℤ → Bool → Fields → List Bytes → Reader SchemaError
  snapshot_reader s id indexed target columns = record {
    load_plan = some (λ n. load_source s id target columns (pos n));
    indexed = indexed;
  }

  -- The files of the snapshot.
  unfoldable pub snapshot_files :
      State → SnapshotScanOptions → State × Result SnapshotError (List SnapshotFile)
  snapshot_files s opts =
      let (s1, found) =
        get_latest_kv_snapshots net endpoint calls.latest s path opts.partition_name in
      on_ok s1 (map_error SnapshotError.latest found) (λ snapshots.
        on_ok s1 (snapshot_id_of opts snapshots) (λ id.
          let (s2, answer) =
            get_kv_snapshot_metadata net endpoint calls.metadata s1 snapshots.table_id
              (or_else opts.partition_id snapshots.partition_id) opts.bucket_id id in
          (s2, map_error SnapshotError.metadata answer >>= (λ m. ok m.snapshot_files))))

  -- SnapshotScanRows once the files are in a directory; the reader is closed at the end.
  unfoldable pub read_local :
      State
      → ℤ
      → Bool
      → Fields
      → SnapshotScanOptions
      → Bytes
      → State × Result SnapshotError (List Items)
  read_local s id indexed target opts dir =
      let (s1, found) = target_columns_of s id target opts.target_columns in
      on_ok s1 (map_error SnapshotError.schemas found) (λ columns.
        let (w2, opened) = store.open_snapshot (s1.0) dir in
        on_ok (w2, s1.1) (map_error SnapshotError.open_failed opened)
          (λ values. (
            (store.close w2, s1.1),
            map_error SnapshotError.read (
                (read_all (snapshot_reader s1 id indexed target columns)
                  (target_plans id target columns) (values.1) (values.0)).1),
          )))

  -- The deferred `os.RemoveAll`.
  abbrev pub removed :
      Bytes → State × Result SnapshotError (List Items) → State × Result SnapshotError (List Items)
  removed dir ((w, c), rows) = ((store.remove_all w dir, c), rows)

  -- `snapshotScanRows` behind kvEncoding, with `fetch`.
  unfoldable pub scan_snapshot :
      SnapshotFetcher W
      → State
      → ℤ
      → Bool
      → Fields
      → SnapshotScanOptions
      → State × Result SnapshotError (List Items)
  scan_snapshot fetch s id indexed target opts =
      let (s1, found) = snapshot_files s opts in
      on_ok s1 found (λ files.
        let (w2, fetched) = fetch (s1.0) files in
        on_ok (w2, s1.1) (map_error SnapshotError.download fetched)
          (λ dir. removed dir (read_local (w2, s1.1) id indexed target opts dir)))

  -- `snapshotScanRows`
  unfoldable pub fetched_scan_rows :
      SnapshotFetcher W
      → State
      → Fields
      → SnapshotScanOptions
      → State × Result SnapshotError (List Items)
  fetched_scan_rows fetch s target opts =
      let (s1, found) = table_of net endpoint path unmarshal num s in
      on_ok s1 (map_error SnapshotError.table found) (λ info.
        let (s2, encoding) = kv_encoding net endpoint path unmarshal num s1 in
        on_ok s2 (map_error SnapshotError.table encoding)
          (λ e. scan_snapshot fetch s2 info.schema_id e.indexed target opts))

  -- `SnapshotScanRows`
  unfoldable pub snapshot_scan_rows :
      State → Fields → SnapshotScanOptions → State × Result SnapshotError (List Items)
  snapshot_scan_rows s target opts =
      on_ok s (snapshot_fetcher store) (λ fetch. fetched_scan_rows fetch s target opts)
