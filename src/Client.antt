-- ===== src/Client.antt =====
-- client/client.go and client/pb.go: what a metadata response does to the cache, and the route to the
-- leader of a bucket. A protobuf message is a record whose absent fields are `none`; a getter gives zero
-- or nothing for those.
pub mod Ingest
pub mod Routing
mod Runs
use fluss_go_client.Prelude.{Bool, true, false, Option, none, some, List, [], ◌∷◌, ◌++◌}
use fluss_go_client.Prelude.Int.{ℤ, pos}
use fluss_go_client.Result.{Result, ok, err, panic, ◌>>=◌}
use fluss_go_client.Bytes.{Bytes}
use fluss_go_client.Metadata.Cache.{
  TablePath, ServerNode, TableInfo, BucketRoute, Cache, upsert_server, set_coordinator, server,
  set_table, set_route, route,
}

pub record PbServerNode : Type 0 where
  pub node_id : Option ℤ
  pub host : Option Bytes
  pub port : Option ℤ
  pub listeners : Option Bytes
  pub rack : Option Bytes

pub record PbBucketMetadata : Type 0 where
  pub bucket_id : Option ℤ
  pub leader_id : Option ℤ
  pub leader_epoch : Option ℤ
  pub replica_id : List ℤ

pub record PbTablePath : Type 0 where
  pub database_name : Option Bytes
  pub table_name : Option Bytes

pub record PbTableMetadata : Type 0 where
  pub table_path : Option PbTablePath
  pub table_id : Option ℤ
  pub schema_id : Option ℤ
  pub table_json : Option Bytes
  pub created_time : Option ℤ
  pub modified_time : Option ℤ
  pub bucket_metadata : List PbBucketMetadata

pub record PbPartitionMetadata : Type 0 where
  pub table_id : Option ℤ
  pub partition_id : Option ℤ
  pub bucket_metadata : List PbBucketMetadata

pub record MetadataResponse : Type 0 where
  pub coordinator_server : Option PbServerNode
  pub tablet_servers : List PbServerNode
  pub table_metadata : List PbTableMetadata
  pub partition_metadata : List PbPartitionMetadata

-- The errors, without the texts.
pub data Error : Type 0 where
  nil_table_path leader_missing : Error
  no_route : ℤ → ℤ → Error
  leader_not_found : ℤ → Error

-- The getters.
abbrev pub or_zero : Option ℤ → ℤ
or_zero none = pos 0
or_zero (some n) = n

abbrev pub or_empty : Option Bytes → Bytes
or_empty none = []
or_empty (some bs) = bs

unfoldable pub parse_server_node : PbServerNode → ServerNode
parse_server_node node = record {
  id = or_zero node.node_id;
  host = or_empty node.host;
  port = or_zero node.port;
  listeners = or_empty node.listeners;
  rack = or_empty node.rack;
}

abbrev pub has_value : Option ℤ → Bool
has_value none = false
has_value (some n) = true

-- `parseBucketMetadata` behind its last check.
abbrev pub bucket_route : ℤ → Option ℤ → PbBucketMetadata → ℤ → BucketRoute
bucket_route table_id partition_id msg leader = record {
  table_id = table_id;
  partition_id = or_zero partition_id;
  has_partition = has_value partition_id;
  bucket_id = or_zero msg.bucket_id;
  leader_id = leader;
  leader_epoch = or_zero msg.leader_epoch;
  replicas = msg.replica_id;
}

unfoldable pub parse_bucket_metadata : ℤ → Option ℤ → PbBucketMetadata → Result Error BucketRoute
parse_bucket_metadata table_id partition_id msg = elim msg.leader_id [
  | none ↦ err Error.leader_missing
  | some leader ↦ ok (bucket_route table_id partition_id msg leader)
]

-- The loops over the buckets of a table or a partition.
unfoldable pub parse_buckets :
    ℤ → Option ℤ → List PbBucketMetadata → Result Error (List BucketRoute)
parse_buckets table_id partition_id [] = ok []
parse_buckets table_id partition_id (b ∷ bs) = do
  r ← parse_bucket_metadata table_id partition_id b
  rs ← parse_buckets table_id partition_id bs
  ok (r ∷ rs)

unfoldable pub parse_table_path : Option PbTablePath → Result Error TablePath
parse_table_path none = err Error.nil_table_path
parse_table_path (some msg) =
    ok (record { database_name = or_empty msg.database_name; table_name = or_empty msg.table_name })

unfoldable pub parse_table_metadata : PbTableMetadata → Result Error (TableInfo × List BucketRoute)
parse_table_metadata msg = do
  path ← parse_table_path msg.table_path
  routes ← parse_buckets (or_zero msg.table_id) none msg.bucket_metadata
  ok (
    record {
      path = path;
      id = or_zero msg.table_id;
      schema_id = or_zero msg.schema_id;
      table_json = or_empty msg.table_json;
      created_time = or_zero msg.created_time;
      modified_time = or_zero msg.modified_time;
      remote_data_dir = [];
    },
    routes,
  )

unfoldable pub parse_partition_metadata : PbPartitionMetadata → Result Error (List BucketRoute)
parse_partition_metadata msg =
    parse_buckets (or_zero msg.table_id) (some (or_zero msg.partition_id)) msg.bucket_metadata

-- The loops of `ingestMetadata`, which writes as it goes.
unfoldable pub set_routes : List BucketRoute → Cache → Cache
set_routes [] c = c
set_routes (r ∷ rs) c = set_routes rs (set_route r c)

unfoldable pub upsert_servers : List PbServerNode → Cache → Cache
upsert_servers [] c = c
upsert_servers (n ∷ ns) c = upsert_servers ns (upsert_server (parse_server_node n) c)

abbrev pub ingest_coordinator : Option PbServerNode → Cache → Cache
ingest_coordinator none c = c
ingest_coordinator (some n) c = set_coordinator (parse_server_node n) c

-- `if err != nil { return err }` with what was written so far.
abbrev pub with_parsed :
    {A : Type 0}
    → Cache
    → Result Error A
    → (A → Cache × Result Error Unit)
    → Cache × Result Error Unit
with_parsed c panic next = (c, panic)
with_parsed c (err e) next = (c, err e)
with_parsed c (ok a) next = next a

unfoldable pub ingest_tables : List PbTableMetadata → Cache → Cache × Result Error Unit
ingest_tables [] c = (c, ok tt)
ingest_tables (t ∷ ts) c =
    with_parsed c (parse_table_metadata t)
      (λ parsed. ingest_tables ts (set_routes (parsed.1) (set_table (parsed.0) c)))

unfoldable pub ingest_partitions : List PbPartitionMetadata → Cache → Cache × Result Error Unit
ingest_partitions [] c = (c, ok tt)
ingest_partitions (p ∷ ps) c =
    with_parsed c (parse_partition_metadata p)
      (λ routes. ingest_partitions ps (set_routes routes c))

abbrev pub then_partitions :
    List PbPartitionMetadata → Cache × Result Error Unit → Cache × Result Error Unit
then_partitions ps (c, panic) = (c, panic)
then_partitions ps (c, err e) = (c, err e)
then_partitions ps (c, ok u) = ingest_partitions ps c

-- `ingestMetadata`
unfoldable pub ingest_metadata : MetadataResponse → Cache → Cache × Result Error Unit
ingest_metadata resp c = then_partitions resp.partition_metadata (
    ingest_tables resp.table_metadata
      (upsert_servers resp.tablet_servers (ingest_coordinator resp.coordinator_server c)))

abbrev pub find_route : Cache → ℤ → Option ℤ → ℤ → Option BucketRoute
find_route c table_id none bucket_id = route c table_id (pos 0) false bucket_id
find_route c table_id (some partition_id) bucket_id = route c table_id partition_id true bucket_id

abbrev pub leader_of : Cache → ℤ → ℤ → Option BucketRoute → Result Error ServerNode
leader_of c table_id bucket_id none = err (Error.no_route table_id bucket_id)
leader_of c table_id bucket_id (some r) = elim (server c r.leader_id) [
  | none ↦ err (Error.leader_not_found r.leader_id)
  | some node ↦ ok node
]

-- `routeFor`
unfoldable pub route_for : Cache → ℤ → Option ℤ → ℤ → Result Error ServerNode
route_for c table_id partition_id bucket_id =
    leader_of c table_id bucket_id (find_route c table_id partition_id bucket_id)
