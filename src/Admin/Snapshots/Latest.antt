-- ===== src/Admin/Snapshots/Latest.antt =====
-- What client/admin.go makes of the latest snapshots in a response.
use fluss_go_client.Prelude.{
  ◌≡◌, refl, ◌∙◌, if◌then◌else◌, Bool-cases, Option, none, some, List, [], ◌∷◌, inl, inr,
}
use fluss_go_client.Prelude.Int.{ℤ, eq_ℤ, eq_ℤ_sound, eq_ℤ_refl}
use fluss_go_client.Prelude.Maps.{find, put, find-put}
use fluss_go_client.Client.{or_zero}
use fluss_go_client.Admin.Snapshots.{
  KvSnapshots, PbKvSnapshot, GetLatestKvSnapshotsResponse, keep_snapshots, kv_snapshots,
}

-- The entries for a bucket.
unfoldable pub for_bucket : ℤ → List PbKvSnapshot → List PbKvSnapshot
for_bucket b [] = []
for_bucket b (s ∷ ss) =
    let rest = for_bucket b ss in if eq_ℤ (or_zero s.bucket_id) b then s ∷ rest else rest

-- The value of the last entry, or a given one where there is none.
unfoldable pub last_value :
    (PbKvSnapshot → Option ℤ) → Option (Option ℤ) → List PbKvSnapshot → Option (Option ℤ)
last_value value found [] = found
last_value value found (s ∷ ss) = last_value value (some (value s)) ss

last_value_step :
    (value : PbKvSnapshot → Option ℤ) (b : ℤ) (m : List (ℤ × Option ℤ)) (s : PbKvSnapshot)
    (ss : List PbKvSnapshot)
    → last_value value (find eq_ℤ (put eq_ℤ m (or_zero s.bucket_id) (value s)) b) (for_bucket b ss)
      ≡ last_value value (find eq_ℤ m b) (for_bucket b (s ∷ ss))
unfolding for_bucket last_value
last_value_step value b m s ss = elim (Bool-cases (eq_ℤ (or_zero s.bucket_id) b)) [
  | inl e ↦ rw (find-put eq_ℤ eq_ℤ_sound eq_ℤ_refl m (or_zero s.bucket_id) (value s) b) (rw e refl)
  | inr e ↦ rw (find-put eq_ℤ eq_ℤ_sound eq_ℤ_refl m (or_zero s.bucket_id) (value s) b) (rw e refl)
]

keep_snapshots-ids :
    (b : ℤ) (ss : List PbKvSnapshot) (out : KvSnapshots)
    → find eq_ℤ (keep_snapshots ss out).snapshot_ids b
      ≡ last_value (λ s. s.snapshot_id) (find eq_ℤ out.snapshot_ids b) (for_bucket b ss)
unfolding keep_snapshots for_bucket last_value
keep_snapshots-ids b [] out = refl
keep_snapshots-ids b (s ∷ ss) out =
    keep_snapshots-ids b ss _ ∙ last_value_step (λ s. s.snapshot_id) b out.snapshot_ids s ss

keep_snapshots-offsets :
    (b : ℤ) (ss : List PbKvSnapshot) (out : KvSnapshots)
    → find eq_ℤ (keep_snapshots ss out).log_offsets b
      ≡ last_value (λ s. s.log_offset) (find eq_ℤ out.log_offsets b) (for_bucket b ss)
unfolding keep_snapshots for_bucket last_value
keep_snapshots-offsets b [] out = refl
keep_snapshots-offsets b (s ∷ ss) out =
    keep_snapshots-offsets b ss _ ∙ last_value_step (λ s. s.log_offset) b out.log_offsets s ss

-- GetLatestKvSnapshots gives for each bucket the snapshot id and the log offset of the last entry for
-- that bucket in the response, nil where that entry has none, and no value for a bucket without an
-- entry.
pub kv_snapshots_lem :
    (r : GetLatestKvSnapshotsResponse) (b : ℤ)
    → (find eq_ℤ (kv_snapshots r).snapshot_ids b
        ≡ last_value (λ s. s.snapshot_id) none (for_bucket b r.latest_snapshots))
      × (find eq_ℤ (kv_snapshots r).log_offsets b
          ≡ last_value (λ s. s.log_offset) none (for_bucket b r.latest_snapshots))
unfolding kv_snapshots find
kv_snapshots_lem r b =
    (keep_snapshots-ids b r.latest_snapshots _, keep_snapshots-offsets b r.latest_snapshots _)
