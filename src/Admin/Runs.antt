-- ===== src/Admin/Runs.antt =====
-- The admin client on a response with two entries for a bucket.
use fluss_go_client.Prelude.{◌≡◌, refl, Option, none, some, [], ◌∷◌}
use fluss_go_client.Prelude.Int.{ℤ, pos, eq_ℤ}
use fluss_go_client.Prelude.Maps.{find, put}
use fluss_go_client.Admin.Snapshots.{
  PbKvSnapshot, GetLatestKvSnapshotsResponse, keep_snapshots, kv_snapshots,
}
use fluss_go_client.Admin.Snapshots.Latest.{for_bucket, last_value, kv_snapshots_lem}

abbrev entry : ℤ → Option ℤ → PbKvSnapshot
entry bucket id = record { bucket_id = some bucket; snapshot_id = id; log_offset = some (pos 9) }

abbrev response : GetLatestKvSnapshotsResponse
response = record {
  table_id = some (pos 5);
  partition_id = none;
  latest_snapshots =
      entry (pos 1) (some (pos 3)) ∷ (entry (pos 2) none ∷ (entry (pos 1) (some (pos 4)) ∷ []));
}

kv_snapshots_lem_example :
    (find eq_ℤ (kv_snapshots response).snapshot_ids (pos 1)
      ≡ last_value (λ s. s.snapshot_id) none (for_bucket (pos 1) response.latest_snapshots))
    × (find eq_ℤ (kv_snapshots response).log_offsets (pos 1)
        ≡ last_value (λ s. s.log_offset) none (for_bucket (pos 1) response.latest_snapshots))
kv_snapshots_lem_example = kv_snapshots_lem response (pos 1)

latest : find eq_ℤ (kv_snapshots response).snapshot_ids (pos 1) ≡ some (some (pos 4))
unfolding kv_snapshots keep_snapshots find put
latest = refl
