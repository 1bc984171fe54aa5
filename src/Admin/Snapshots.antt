-- ===== src/Admin/Snapshots.antt =====
-- client/admin.go: the snapshots of a table.
pub mod Latest
use fluss_go_client.Prelude.{Bool, true, Option, none, some, List, [], ◌∷◌, map}
use fluss_go_client.Prelude.Int.{ℤ, eq_ℤ}
use fluss_go_client.Prelude.Maps.{put}
use fluss_go_client.Result.{Result}
use fluss_go_client.Bytes.{Bytes}
use fluss_go_client.Metadata.Cache.{TablePath, Cache}
use fluss_go_client.Client.{or_zero, or_empty}
use fluss_go_client.Table.Retry.{GoError}
use fluss_go_client.Table.Send.{Net}
use fluss_go_client.Admin.{invoke_any, answered}

-- The values of the maps are pointers, where `none` is nil.
pub record KvSnapshots : Type 0 where
  pub table_id : ℤ
  pub partition_id : Option ℤ
  pub snapshot_ids : List (ℤ × Option ℤ)
  pub log_offsets : List (ℤ × Option ℤ)

pub record PbKvSnapshot : Type 0 where
  pub bucket_id : Option ℤ
  pub snapshot_id : Option ℤ
  pub log_offset : Option ℤ

pub record GetLatestKvSnapshotsRequest : Type 0 where
  pub table_path : TablePath
  pub partition_name : Option Bytes

pub record GetLatestKvSnapshotsResponse : Type 0 where
  pub table_id : Option ℤ
  pub partition_id : Option ℤ
  pub latest_snapshots : List PbKvSnapshot

-- The loop of `GetLatestKvSnapshots`.
unfoldable pub keep_snapshots : List PbKvSnapshot → KvSnapshots → KvSnapshots
keep_snapshots [] out = out
keep_snapshots (s ∷ ss) out = keep_snapshots ss (record out {
  snapshot_ids = put eq_ℤ out.snapshot_ids (or_zero s.bucket_id) s.snapshot_id;
  log_offsets = put eq_ℤ out.log_offsets (or_zero s.bucket_id) s.log_offset;
})

-- `GetLatestKvSnapshots`, what it makes of the response.
unfoldable pub kv_snapshots : GetLatestKvSnapshotsResponse → KvSnapshots
kv_snapshots r = keep_snapshots r.latest_snapshots (record {
  table_id = or_zero r.table_id;
  partition_id = r.partition_id;
  snapshot_ids = [];
  log_offsets = [];
})

pub record SnapshotFile : Type 0 where
  pub remote_path : Bytes
  pub local_file_name : Bytes

pub record KvSnapshotMetadata : Type 0 where
  pub log_offset : ℤ
  pub snapshot_files : List SnapshotFile

pub record PbRemotePathAndLocalFile : Type 0 where
  pub remote_path : Option Bytes
  pub local_file_name : Option Bytes

pub record GetKvSnapshotMetadataRequest : Type 0 where
  pub table_id : ℤ
  pub partition_id : Option ℤ
  pub bucket_id : ℤ
  pub snapshot_id : ℤ

pub record GetKvSnapshotMetadataResponse : Type 0 where
  pub log_offset : Option ℤ
  pub snapshot_files : List PbRemotePathAndLocalFile

abbrev pub snapshot_file : PbRemotePathAndLocalFile → SnapshotFile
snapshot_file file = record {
  remote_path = or_empty file.remote_path;
  local_file_name = or_empty file.local_file_name;
}

abbrev pub kv_snapshot_metadata : GetKvSnapshotMetadataResponse → KvSnapshotMetadata
kv_snapshot_metadata r = record {
  log_offset = or_zero r.log_offset;
  snapshot_files = map snapshot_file r.snapshot_files;
}

pub record LakeSnapshotBucket : Type 0 where
  pub bucket_id : ℤ
  pub partition_id : Option ℤ
  pub log_offset : ℤ

pub record LakeSnapshot : Type 0 where
  pub table_id : ℤ
  pub snapshot_id : ℤ
  pub buckets : List LakeSnapshotBucket

pub record PbLakeSnapshotForBucket : Type 0 where
  pub bucket_id : Option ℤ
  pub partition_id : Option ℤ
  pub log_offset : Option ℤ

pub record GetLakeSnapshotRequest : Type 0 where
  pub table_path : TablePath
  pub snapshot_id : Option ℤ
  pub readable : Option Bool

pub record GetLakeSnapshotResponse : Type 0 where
  pub table_id : Option ℤ
  pub snapshot_id : Option ℤ
  pub bucket_snapshots : List PbLakeSnapshotForBucket

abbrev pub lake_bucket : PbLakeSnapshotForBucket → LakeSnapshotBucket
lake_bucket bucket = record {
  bucket_id = or_zero bucket.bucket_id;
  partition_id = bucket.partition_id;
  log_offset = or_zero bucket.log_offset;
}

abbrev pub lake_snapshot : GetLakeSnapshotResponse → LakeSnapshot
lake_snapshot r = record {
  table_id = or_zero r.table_id;
  snapshot_id = or_zero r.snapshot_id;
  buckets = map lake_bucket r.bucket_snapshots;
}

module _ {W : Type 0} (net : Net W) (endpoint : Bytes) where
  abbrev State : Type 0
  State = W × Cache

  unfoldable pub get_latest_kv_snapshots :
      (W → Bytes → GetLatestKvSnapshotsRequest → W × Result GoError GetLatestKvSnapshotsResponse)
      → State
      → TablePath
      → Option Bytes
      → State × Result GoError KvSnapshots
  get_latest_kv_snapshots send s path partition_name = answered kv_snapshots (
      invoke_any net endpoint send s
        (record { table_path = path; partition_name = partition_name }))

  unfoldable pub get_kv_snapshot_metadata :
      (W → Bytes → GetKvSnapshotMetadataRequest → W × Result GoError GetKvSnapshotMetadataResponse)
      → State
      → ℤ
      → Option ℤ
      → ℤ
      → ℤ
      → State × Result GoError KvSnapshotMetadata
  get_kv_snapshot_metadata send s table_id partition_id bucket_id snapshot_id =
      answered kv_snapshot_metadata (
        invoke_any net endpoint send s (record {
          table_id = table_id;
          partition_id = partition_id;
          bucket_id = bucket_id;
          snapshot_id = snapshot_id;
        }))

  -- `getLakeSnapshot`
  unfoldable pub lake_snapshot_of :
      (W → Bytes → GetLakeSnapshotRequest → W × Result GoError GetLakeSnapshotResponse)
      → State
      → TablePath
      → Option ℤ
      → Option Bool
      → State × Result GoError LakeSnapshot
  lake_snapshot_of send s path snapshot_id readable = answered lake_snapshot (
      invoke_any net endpoint send s
        (record { table_path = path; snapshot_id = snapshot_id; readable = readable }))

  -- `GetLatestLakeSnapshot`, `GetLakeSnapshot` and `GetReadableLakeSnapshot`
  unfoldable pub get_latest_lake_snapshot :
      (W → Bytes → GetLakeSnapshotRequest → W × Result GoError GetLakeSnapshotResponse)
      → State
      → TablePath
      → State × Result GoError LakeSnapshot
  get_latest_lake_snapshot send s path = lake_snapshot_of send s path none none

  unfoldable pub get_lake_snapshot :
      (W → Bytes → GetLakeSnapshotRequest → W × Result GoError GetLakeSnapshotResponse)
      → State
      → TablePath
      → ℤ
      → State × Result GoError LakeSnapshot
  get_lake_snapshot send s path snapshot_id = lake_snapshot_of send s path (some snapshot_id) none

  unfoldable pub get_readable_lake_snapshot :
      (W → Bytes → GetLakeSnapshotRequest → W × Result GoError GetLakeSnapshotResponse)
      → State
      → TablePath
      → State × Result GoError LakeSnapshot
  get_readable_lake_snapshot send s path = lake_snapshot_of send s path none (some true)
