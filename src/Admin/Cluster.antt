-- ===== src/Admin/Cluster.antt =====
-- client/admin.go: configuration, server tags, rebalancing and the ids of writers.
use fluss_go_client.Prelude.{Option, none, some, List, [], ◌∷◌, map}
use fluss_go_client.Prelude.Int.{ℤ}
use fluss_go_client.Result.{Result, ok, panic, ◌>>=◌}
use fluss_go_client.Bytes.{Bytes}
use fluss_go_client.Metadata.Cache.{TablePath, Cache}
use fluss_go_client.Client.{or_zero, or_empty}
use fluss_go_client.Table.Retry.{GoError}
use fluss_go_client.Table.Send.{Net}
use fluss_go_client.Admin.{invoke_coordinator, answered}
use fluss_go_client.Admin.Tables.{TableConfigChange, PbAlterConfig, build_alter_config}

pub record ClusterConfigEntry : Type 0 where
  pub key : Bytes
  pub value : Option Bytes
  pub source : Bytes

pub record PbDescribeConfig : Type 0 where
  pub config_key : Option Bytes
  pub config_value : Option Bytes
  pub config_source : Option Bytes

abbrev pub config_entry : PbDescribeConfig → ClusterConfigEntry
config_entry item = record {
  key = or_empty item.config_key;
  value = item.config_value;
  source = or_empty item.config_source;
}

-- AddServerTag and RemoveServerTag send the same fields.
pub record ServerTagRequest : Type 0 where
  pub server_ids : List ℤ
  pub server_tag : ℤ

pub record RebalanceBucketPlan : Type 0 where
  pub partition_id : Option ℤ
  pub bucket_id : ℤ
  pub original_leader : Option ℤ
  pub new_leader : Option ℤ
  pub original_replicas : List ℤ
  pub new_replicas : List ℤ

pub record RebalanceBucketProgress : Type 0 where
  pub plan : RebalanceBucketPlan
  pub status : ℤ

pub record RebalanceTableProgress : Type 0 where
  pub table_id : ℤ
  pub buckets : List RebalanceBucketProgress

pub record RebalanceProgress : Type 0 where
  pub rebalance_id : Bytes
  pub status : Option ℤ
  pub tables : List RebalanceTableProgress

pub record PbRebalancePlanForBucket : Type 0 where
  pub partition_id : Option ℤ
  pub bucket_id : Option ℤ
  pub original_leader : Option ℤ
  pub new_leader : Option ℤ
  pub original_replicas : List ℤ
  pub new_replicas : List ℤ

pub record PbRebalanceProgressForBucket : Type 0 where
  pub rebalance_plan : Option PbRebalancePlanForBucket
  pub rebalance_status : Option ℤ

pub record PbRebalanceProgressForTable : Type 0 where
  pub table_id : Option ℤ
  pub buckets_progress : List PbRebalanceProgressForBucket

pub record ListRebalanceProgressResponse : Type 0 where
  pub rebalance_id : Option Bytes
  pub rebalance_status : Option ℤ
  pub table_progress : List PbRebalanceProgressForTable

-- The fields of a nil plan cannot be read.
abbrev pub parse_rebalance_plan :
    Option PbRebalancePlanForBucket → Result GoError RebalanceBucketPlan
parse_rebalance_plan none = panic
parse_rebalance_plan (some item) = ok (record {
  partition_id = item.partition_id;
  bucket_id = or_zero item.bucket_id;
  original_leader = item.original_leader;
  new_leader = item.new_leader;
  original_replicas = item.original_replicas;
  new_replicas = item.new_replicas;
})

-- The loop over the buckets of a table, and the one over the tables.
unfoldable pub buckets_progress :
    List PbRebalanceProgressForBucket → Result GoError (List RebalanceBucketProgress)
buckets_progress [] = ok []
buckets_progress (bucket ∷ buckets) = do
  plan ← parse_rebalance_plan bucket.rebalance_plan
  rest ← buckets_progress buckets
  ok (record { plan = plan; status = or_zero bucket.rebalance_status } ∷ rest)

unfoldable pub tables_progress :
    List PbRebalanceProgressForTable → Result GoError (List RebalanceTableProgress)
tables_progress [] = ok []
tables_progress (table ∷ tables) = do
  buckets ← buckets_progress table.buckets_progress
  rest ← tables_progress tables
  ok (record { table_id = or_zero table.table_id; buckets = buckets } ∷ rest)

-- The end of `ListRebalanceProgress`, whose nil result is `none`.
abbrev pub progress_of :
    Option Bytes → ListRebalanceProgressResponse → Result GoError (Option RebalanceProgress)
progress_of none r = ok none
progress_of (some id) r = do
  tables ← tables_progress r.table_progress
  ok (some (record { rebalance_id = id; status = r.rebalance_status; tables = tables }))

module _ {W : Type 0} (net : Net W) (endpoint : Bytes) where
  abbrev State : Type 0
  State = W × Cache

  unfoldable pub describe_cluster_configs :
      (W → Bytes → Unit {0} → W × Result GoError (List PbDescribeConfig))
      → State
      → State × Result GoError (List ClusterConfigEntry)
  describe_cluster_configs send s =
      answered (map config_entry) (invoke_coordinator net endpoint send s tt)

  unfoldable pub alter_cluster_configs :
      (W → Bytes → List PbAlterConfig → W × Result GoError (Unit {0}))
      → State
      → List TableConfigChange
      → State × Result GoError (Unit {0})
  alter_cluster_configs send s changes =
      invoke_coordinator net endpoint send s (map build_alter_config changes)

  -- `AddServerTag`, and `RemoveServerTag` with a call of its own.
  unfoldable pub add_server_tag :
      (W → Bytes → ServerTagRequest → W × Result GoError (Unit {0}))
      → State
      → List ℤ
      → ℤ
      → State × Result GoError (Unit {0})
  add_server_tag send s server_ids tag =
      invoke_coordinator net endpoint send s (record { server_ids = server_ids; server_tag = tag })

  unfoldable pub remove_server_tag :
      (W → Bytes → ServerTagRequest → W × Result GoError (Unit {0}))
      → State
      → List ℤ
      → ℤ
      → State × Result GoError (Unit {0})
  remove_server_tag send s server_ids tag =
      invoke_coordinator net endpoint send s (record { server_ids = server_ids; server_tag = tag })

  -- Goals are numbers. The answer has the field `rebalance_id`.
  unfoldable pub rebalance :
      (W → Bytes → List ℤ → W × Result GoError (Option Bytes))
      → State
      → List ℤ
      → State × Result GoError Bytes
  rebalance send s goals = answered or_empty (invoke_coordinator net endpoint send s goals)

  unfoldable pub list_rebalance_progress :
      (W → Bytes → Option Bytes → W × Result GoError ListRebalanceProgressResponse)
      → State
      → Option Bytes
      → State × Result GoError (Option RebalanceProgress)
  list_rebalance_progress send s rebalance_id =
      let (s', answer) = invoke_coordinator net endpoint send s rebalance_id in
      (s', answer >>= (λ r. progress_of r.rebalance_id r))

  unfoldable pub cancel_rebalance :
      (W → Bytes → Option Bytes → W × Result GoError (Unit {0}))
      → State
      → Option Bytes
      → State × Result GoError (Unit {0})
  cancel_rebalance send s rebalance_id = invoke_coordinator net endpoint send s rebalance_id

  -- `InitWriter`, whose answer has the field `writer_id`.
  unfoldable pub init_writer :
      (W → Bytes → List TablePath → W × Result GoError (Option ℤ))
      → State
      → List TablePath
      → State × Result GoError ℤ
  init_writer send s table_paths =
      answered or_zero (invoke_coordinator net endpoint send s table_paths)
