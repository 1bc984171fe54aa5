-- ===== src/Rows/Runs/Scans.antt =====
-- SnapshotScanRows of a bucket whose latest snapshot holds one row.
use fluss_go_client.Prelude.{◌≡◌, refl, true, false, Option, none, some, List, [], ◌∷◌, arith, inr}
use fluss_go_client.Prelude.Int.{pos}
use fluss_go_client.Prelude.Maps.{find, put}
use fluss_go_client.Result.{ok, err}
use fluss_go_client.Bytes.{Bytes, le_bytes}
use fluss_go_client.Bytes.Equal.{bytes_eq}
use fluss_go_client.Row.Types.{field_count}
use fluss_go_client.Metadata.Cache.{path_eq, upsert_server, set_table, table, set_route}
use fluss_go_client.Metadata.Schema.Descriptor.{ColumnJson}
use fluss_go_client.Snapshot.{same_columns, lookup_plan}
use fluss_go_client.Snapshot.Stored.{requested}
use fluss_go_client.Admin.Snapshots.{
  SnapshotFile, keep_snapshots, kv_snapshots, get_latest_kv_snapshots, get_kv_snapshot_metadata,
}
use fluss_go_client.Table.Sample.{path, info, cache, lost_leader, quiet_net}
use fluss_go_client.Table.Send.Routes.{ensure_table_info}
use fluss_go_client.Rows.{bits_of}
use fluss_go_client.Rows.Snapshots.{
  SnapshotScanOptions, Store, SnapshotCalls, target_plan, target_plans, snapshot_reader,
  snapshot_fetcher, snapshot_id_of, target_columns_of, snapshot_files, snapshot_scan_rows,
}
use fluss_go_client.Rows.Versions.{AreVersions, stop, next}
use fluss_go_client.Rows.Scanned.{snapshot_scan_rows-AreVersions}
use fluss_go_client.Rows.Runs.{
  id_name, unmarshal, no_numbers, schema, row, encoding, opened, row_encoded,
}

abbrev no_schemas : Bytes → Option (List ColumnJson)
no_schemas text = none

abbrev snapshot_calls : SnapshotCalls (Unit {0})
snapshot_calls = record {
  latest = λ w addr req. (
    w,
    ok (record {
      table_id = some (pos 5);
      partition_id = none;
      latest_snapshots =
          record { bucket_id = some (pos 1); snapshot_id = some (pos 3); log_offset = none } ∷ [];
    }),
  );
  metadata = λ w addr req. (
    w,
    ok (record {
      log_offset = none;
      snapshot_files = record { remote_path = some (1 ∷ []); local_file_name = some (2 ∷ []) } ∷ [];
    }),
  );
  schema = λ w addr req. (w, err lost_leader);
}

abbrev value : Bytes
value = 1 ∷ 0 ∷ 0 ∷ 7 ∷ []

abbrev store : Store (Unit {0})
store = record {
  configured = some (λ w files. (w, ok (9 ∷ [])));
  default_fetcher = err lost_leader;
  open_snapshot = λ w dir. (w, ok (value ∷ [], false));
  close = λ w. w;
  remove_all = λ w dir. w;
}

fetcher_made : snapshot_fetcher store ≡ ok (λ w files. (w, ok (9 ∷ [])))
unfolding snapshot_fetcher
fetcher_made = refl

abbrev options : SnapshotScanOptions
options = record {
  partition_name = none;
  partition_id = none;
  bucket_id = pos 1;
  snapshot_id = none;
  target_columns = id_name ∷ [];
}

abbrev files : List SnapshotFile
files = record { remote_path = 1 ∷ []; local_file_name = 2 ∷ [] } ∷ []

known : ensure_table_info quiet_net [] path (tt, cache) ≡ ((tt, cache), ok info)
unfolding ensure_table_info table set_route upsert_server set_table find put path_eq bytes_eq
known = refl

files_found :
    snapshot_files quiet_net [] path unmarshal no_schemas no_numbers snapshot_calls store
      (tt, cache)
      options
    ≡ ((tt, cache), ok files)
unfolding snapshot_files get_latest_kv_snapshots kv_snapshots keep_snapshots put find snapshot_id_of
    get_kv_snapshot_metadata set_route upsert_server set_table
files_found = refl

asked :
    target_columns_of quiet_net [] path unmarshal no_schemas no_numbers snapshot_calls store
      (tt, cache)
      (pos 1)
      schema
      (id_name ∷ [])
    ≡ ((tt, cache), ok (id_name ∷ []))
unfolding target_columns_of field_count
asked = refl

versions :
    AreVersions
      (snapshot_reader quiet_net [] path unmarshal no_schemas no_numbers snapshot_calls store
        (tt, cache)
        (pos 1)
        true
        schema
        (id_name ∷ []))
      (target_plans (pos 1) schema (id_name ∷ []))
      no_numbers
      (value ∷ [])
      (row.values ∷ [])
unfolding le_bytes lookup_plan find bits_of requested same_columns bytes_eq
versions =
    next value row.values [] []
      (record {
        id = 1;
        plan = target_plan schema (id_name ∷ []);
        row = row.values;
        bytes = 0 ∷ 7 ∷ [];
        small = omega arith;
        found = refl;
        made = refl;
        typed = (inr (refl, omega arith), tt);
        encoded = row_encoded;
        short = omega arith;
        asked = refl;
      })
      stop

snapshot_scan_rows-AreVersions_example :
    snapshot_scan_rows quiet_net [] path unmarshal no_schemas no_numbers snapshot_calls store
      (tt, cache)
      schema
      options
    ≡ ((tt, cache), ok (row.values ∷ []))
snapshot_scan_rows-AreVersions_example =
    snapshot_scan_rows-AreVersions quiet_net [] path unmarshal no_schemas no_numbers snapshot_calls
      store (tt, cache) (tt, cache) (tt, cache) (tt, cache) (tt, cache) tt tt
      (λ w files. (w, ok (9 ∷ []))) schema options info encoding files (9 ∷ []) (id_name ∷ [])
      (value ∷ []) (row.values ∷ []) fetcher_made known opened refl files_found refl asked refl
      versions
