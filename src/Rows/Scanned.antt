-- ===== src/Rows/Scanned.antt =====
-- client/row.go: what SnapshotScanRows returns.
use fluss_go_client.Prelude.{◌≡◌, refl, true, false, Option, List}
use fluss_go_client.Result.{ok}
use fluss_go_client.Bytes.{Bytes}
use fluss_go_client.Row.Types.{Fields}
use fluss_go_client.Row.Value.{Items, Numbers}
use fluss_go_client.Metadata.Cache.{TablePath, TableInfo, Cache}
use fluss_go_client.Metadata.TableDescriptor.{TableDescriptor}
use fluss_go_client.Metadata.Schema.Descriptor.{ColumnJson}
use fluss_go_client.Admin.Snapshots.{SnapshotFile}
use fluss_go_client.Table.Send.{Net}
use fluss_go_client.Table.Send.Routes.{ensure_table_info}
use fluss_go_client.Rows.Encoding.{KvEncoding, kv_encoding}
use fluss_go_client.Rows.Snapshots.{
  SnapshotScanOptions, SnapshotFetcher, snapshot_fetcher, fetched_scan_rows, Store, SnapshotCalls,
  target_plans, snapshot_reader, target_columns_of, snapshot_files, read_local, scan_snapshot,
  snapshot_scan_rows,
}
use fluss_go_client.Rows.Versions.{AreVersions, read_all-AreVersions}

module _ {W : Type 0} (net : Net W) (endpoint : Bytes) (path : TablePath)
    (unmarshal : Bytes → Option TableDescriptor)
    (unmarshal_schema : Bytes → Option (List ColumnJson)) (num : Numbers) (calls : SnapshotCalls W)
    (store : Store W) where
  -- If there is a fetcher, the table is found in the indexed format, the files of the snapshot are found
  -- and downloaded, the target columns are found, and the database opens on values that were each
  -- written as a schema id of 16 bits and a typed row below 2^32 bytes under a schema that the reader
  -- knows or can load, SnapshotScanRows returns the rows in order under the target columns, and has
  -- closed the reader and removed the directory.
  pub snapshot_scan_rows-AreVersions :
      (s s1 s2 s3 s4 : W × Cache) (w5 w6 : W) (fetch : SnapshotFetcher W) (target : Fields)
      (opts : SnapshotScanOptions) (info : TableInfo) (e : KvEncoding) (files : List SnapshotFile)
      (dir : Bytes) (columns : List Bytes) (values : List Bytes) (rows : List Items)
      → snapshot_fetcher store ≡ ok fetch
      → ensure_table_info net endpoint path s ≡ (s1, ok info)
      → kv_encoding net endpoint path unmarshal num s1 ≡ (s2, ok e)
      → e.indexed ≡ true
      → snapshot_files net endpoint path unmarshal unmarshal_schema num calls store s2 opts
        ≡ (s3, ok files)
      → fetch (s3.0) files ≡ (w5, ok dir)
      → target_columns_of net endpoint path unmarshal unmarshal_schema num calls store
          (w5, s3.1)
          info.schema_id
          target
          opts.target_columns
        ≡ (s4, ok columns)
      → store.open_snapshot (s4.0) dir ≡ (w6, ok (values, false))
      → AreVersions
          (snapshot_reader net endpoint path unmarshal unmarshal_schema num calls store s4
            info.schema_id true target columns)
          (target_plans info.schema_id target columns)
          num
          values
          rows
      → snapshot_scan_rows net endpoint path unmarshal unmarshal_schema num calls store s target
          opts
        ≡ ((store.remove_all (store.close w6) dir, s4.1), ok rows)
  unfolding snapshot_scan_rows fetched_scan_rows scan_snapshot read_local
  snapshot_scan_rows-AreVersions s s1 s2 s3 s4 w5 w6 fetch target opts info e files dir columns
        values rows made known encoded indexed found fetched asked opened versions =
      let read =
        read_all-AreVersions
          (snapshot_reader net endpoint path unmarshal unmarshal_schema num calls store s4
            info.schema_id true target columns)
          (target_plans info.schema_id target columns) num refl values rows versions in
      rw made (
        rw known
          (rw encoded (rw indexed (rw found (rw fetched (rw asked (rw opened (rw read refl))))))))
