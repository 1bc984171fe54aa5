-- ===== src/Writer/Options.antt =====
-- client/types.go and client/writer.go: options, their defaults, and the batches that are written. Go's
-- int, int32 and time.Duration are integers here; nothing is computed with them.
use fluss_go_client.Prelude.{
  ℕ, ◌+◌, Bool, true, ◌&&◌, Option, none, some, if◌then◌else◌, List, [], ◌∷◌, length,
}
use fluss_go_client.Prelude.Int.{ℤ, pos, negsuc, leb_ℤ, is_zero_ℤ}
use fluss_go_client.Bytes.{Bytes}

pub record BucketRecordBatch : Type 0 where
  pub partition_id : Option ℤ
  pub bucket_id : ℤ
  pub records : Bytes

pub record AppendOptions : Type 0 where
  pub acks : ℤ
  pub timeout_ms : ℤ
  pub max_buffered_batches : ℤ
  pub max_buffered_bytes : ℤ
  pub linger : ℤ
  pub block_on_buffer_full : Bool
  pub flush_on_close : Option Bool

-- `none` for `TargetColumns` is a nil slice.
pub record UpsertOptions : Type 0 where
  pub acks : ℤ
  pub timeout_ms : ℤ
  pub target_columns : Option (List ℕ)
  pub agg_mode : Option ℕ
  pub max_buffered_batches : ℤ
  pub max_buffered_bytes : ℤ
  pub linger : ℤ
  pub block_on_buffer_full : Bool
  pub flush_on_close : Option Bool

unfoldable pub default_acks : ℤ → ℤ
default_acks acks = if is_zero_ℤ acks then negsuc 0 else acks

unfoldable pub default_timeout : ℤ → ℤ
default_timeout timeout = if leb_ℤ timeout (pos 0) then pos 15000 else timeout

unfoldable pub default_batches : ℤ → ℤ
default_batches batches = if leb_ℤ batches (pos 0) then pos 1 else batches

-- `AppendOptions.withDefaults`
unfoldable pub append_defaults : AppendOptions → AppendOptions
unfolding default_acks default_timeout default_batches
append_defaults o = record o {
  acks = default_acks o.acks;
  timeout_ms = default_timeout o.timeout_ms;
  max_buffered_batches = default_batches o.max_buffered_batches;
}

abbrev default_columns : Option (List ℕ) → Option (List ℕ)
default_columns none = some []
default_columns (some cs) = some cs

-- `UpsertOptions.withDefaults`
unfoldable pub upsert_defaults : UpsertOptions → UpsertOptions
unfolding default_acks default_timeout default_batches
upsert_defaults o = record o {
  acks = default_acks o.acks;
  timeout_ms = default_timeout o.timeout_ms;
  target_columns = default_columns o.target_columns;
  max_buffered_batches = default_batches o.max_buffered_batches;
}

-- What the buffer reads of the options, after their defaults.
pub record Limits : Type 0 where
  pub batches : ℤ
  pub bytes : ℤ
  pub linger : ℤ
  pub block : Bool
  pub on_close : Option Bool

unfoldable pub append_limits : AppendOptions → Limits
unfolding append_defaults
append_limits o =
    let d = append_defaults o in
    record {
      batches = d.max_buffered_batches;
      bytes = d.max_buffered_bytes;
      linger = d.linger;
      block = d.block_on_buffer_full;
      on_close = d.flush_on_close;
    }

unfoldable pub upsert_limits : UpsertOptions → Limits
unfolding upsert_defaults
upsert_limits o =
    let d = upsert_defaults o in
    record {
      batches = d.max_buffered_batches;
      bytes = d.max_buffered_bytes;
      linger = d.linger;
      block = d.block_on_buffer_full;
      on_close = d.flush_on_close;
    }

-- `flushOnClose`
unfoldable pub flush_on_close : Limits → Bool
flush_on_close l = elim l.on_close [ none ↦ true | some b ↦ b ]

-- `shouldFlushImmediately`
unfoldable pub should_flush_immediately : Limits → Bool
should_flush_immediately l =
    leb_ℤ l.batches (pos 1) && (leb_ℤ l.bytes (pos 0) && leb_ℤ l.linger (pos 0))

unfoldable pub bucket_record_batch_bytes : List BucketRecordBatch → ℕ
bucket_record_batch_bytes [] = 0
bucket_record_batch_bytes (b ∷ bs) = length b.records + bucket_record_batch_bytes bs

-- `cloneBucketRecordBatches`: new slices and pointers with the same contents.
unfoldable pub clone_bucket_record_batches : List BucketRecordBatch → List BucketRecordBatch
clone_bucket_record_batches [] = []
clone_bucket_record_batches (b ∷ bs) =
    record { partition_id = b.partition_id; bucket_id = b.bucket_id; records = b.records }
    ∷ clone_bucket_record_batches bs
