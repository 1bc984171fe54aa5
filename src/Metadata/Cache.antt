-- ===== src/Metadata/Cache.antt =====
-- internal/metadata/cache.go: the cache of servers, tables and bucket routes. Each method holds the mutex
-- throughout, so it is a function on the cache. Go's integers are ℤ; nothing is computed with them.
pub mod Keys
pub mod Laws
pub mod Routes
use fluss_go_client.Prelude.{
  Bool, true, false, ◌&&◌, if◌then◌else◌, Option, none, some, List, [], ◌∷◌, ◌++◌,
}
use fluss_go_client.Prelude.Int.{ℤ, eq_ℤ}
use fluss_go_client.Prelude.Maps.{find, put}
use fluss_go_client.Bytes.{Bytes}
use fluss_go_client.Bytes.Equal.{bytes_eq}
use fluss_go_client.Format.{format_d}

pub record TablePath : Type 0 where
  pub database_name : Bytes
  pub table_name : Bytes

pub record ServerNode : Type 0 where
  pub id : ℤ
  pub host : Bytes
  pub port : ℤ
  pub listeners : Bytes
  pub rack : Bytes

-- `ServerNode.Address`
unfoldable pub address : ServerNode → Bytes
address n = n.host ++ (58 ∷ format_d n.port)

pub record TableInfo : Type 0 where
  pub path : TablePath
  pub id : ℤ
  pub schema_id : ℤ
  pub table_json : Bytes
  pub created_time : ℤ
  pub modified_time : ℤ
  pub remote_data_dir : Bytes

pub record BucketRoute : Type 0 where
  pub table_id : ℤ
  pub partition_id : ℤ
  pub has_partition : Bool
  pub bucket_id : ℤ
  pub leader_id : ℤ
  pub leader_epoch : ℤ
  pub replicas : List ℤ

-- `partitions` is made and never used.
pub record Cache : Type 0 where
  pub coordinator : Option ServerNode
  pub servers : List (ℤ × ServerNode)
  pub tables : List (TablePath × TableInfo)
  pub routes : List (Bytes × BucketRoute)

abbrev pub new_cache : Cache
new_cache = record { coordinator = none; servers = []; tables = []; routes = [] }

-- `==` on the struct.
unfoldable pub path_eq : TablePath → TablePath → Bool
path_eq a b = bytes_eq a.database_name b.database_name && bytes_eq a.table_name b.table_name

-- The middle of a key: a partition, or a dash.
abbrev pub partition_part : ℤ → Bool → Bytes
partition_part partition_id true = format_d partition_id
partition_part partition_id false = 45 ∷ []

-- `%d/%d/%d`, or `%d/-/%d`
unfoldable pub route_key : ℤ → ℤ → Bool → ℤ → Bytes
route_key table_id partition_id has_partition bucket_id =
    format_d table_id
    ++ (47 ∷ (partition_part partition_id has_partition ++ (47 ∷ format_d bucket_id)))

unfoldable pub upsert_server : ServerNode → Cache → Cache
upsert_server node c = record c { servers = put eq_ℤ c.servers node.id node }

unfoldable pub set_coordinator : ServerNode → Cache → Cache
set_coordinator node c = record c {
  coordinator = some node;
  servers = put eq_ℤ c.servers node.id node;
}

unfoldable pub server : Cache → ℤ → Option ServerNode
server c id = find eq_ℤ c.servers id

unfoldable pub set_table : TableInfo → Cache → Cache
set_table info c = record c { tables = put path_eq c.tables info.path info }

unfoldable pub table : Cache → TablePath → Option TableInfo
table c path = find path_eq c.tables path

unfoldable pub set_route : BucketRoute → Cache → Cache
set_route r c = record c {
  routes =
      put bytes_eq c.routes (route_key r.table_id r.partition_id r.has_partition r.bucket_id) r;
}

unfoldable pub route : Cache → ℤ → ℤ → Bool → ℤ → Option BucketRoute
route c table_id partition_id has_partition bucket_id =
    find bytes_eq c.routes (route_key table_id partition_id has_partition bucket_id)
