-- ===== src/Table/Sample.antt =====
-- A cluster of two servers for the runs of the table client: each leads one bucket of a table.
use fluss_go_client.Prelude.{false, [], ◌∷◌}
use fluss_go_client.Prelude.Int.{ℤ, pos}
use fluss_go_client.Bytes.{Bytes}
use fluss_go_client.Metadata.Cache.{
  TablePath, ServerNode, BucketRoute, TableInfo, Cache, new_cache, upsert_server, set_table,
  set_route,
}
use fluss_go_client.Table.Retry.{GoError}
use fluss_go_client.Table.Send.{Net, api_error}
use fluss_go_client.Result.{err}

abbrev pub path : TablePath
path = record { database_name = 100 ∷ []; table_name = 116 ∷ [] }

abbrev pub node : ℤ → Bytes → ServerNode
node id host = record { id = id; host = host; port = pos 1; listeners = []; rack = [] }

abbrev pub bucket : ℤ → ℤ → BucketRoute
bucket id leader = record {
  table_id = pos 5;
  partition_id = pos 0;
  has_partition = false;
  bucket_id = id;
  leader_id = leader;
  leader_epoch = pos 0;
  replicas = [];
}

abbrev pub info : TableInfo
info = record {
  path = path;
  id = pos 5;
  schema_id = pos 1;
  table_json = [];
  created_time = pos 0;
  modified_time = pos 0;
  remote_data_dir = [];
}

abbrev pub cache : Cache
cache = set_route (bucket (pos 1) (pos 1)) (
    set_route (bucket (pos 2) (pos 2)) (
      upsert_server (node (pos 1) (97 ∷ []))
        (upsert_server (node (pos 2) (98 ∷ [])) (set_table info new_cache))))

abbrev pub address_a : Bytes
address_a = 97 ∷ (58 ∷ (49 ∷ []))

abbrev pub address_b : Bytes
address_b = 98 ∷ (58 ∷ (49 ∷ []))

abbrev pub lost_leader : GoError
lost_leader = api_error (pos 44) []

-- Calls that all fail.
abbrev pub quiet_net : Net Unit
quiet_net = record {
  get_metadata = λ w addr paths. (w, err lost_leader);
  produce_log = λ w addr request. (w, err lost_leader);
  get_table_info = λ w addr p. (w, err lost_leader);
  walk = λ g. g;
}
