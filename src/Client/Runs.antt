-- ===== src/Client/Runs.antt =====
-- Metadata responses at concrete inputs.
use fluss_go_client.Prelude.{◌≡◌, refl, false, none, some, List, [], ◌∷◌, ◌++◌}
use fluss_go_client.Prelude.Int.{pos}
use fluss_go_client.Prelude.Maps.{find, put}
use fluss_go_client.Result.{ok, err}
use fluss_go_client.Bytes.Equal.{bytes_eq}
use fluss_go_client.Format.{format_d, digits_loop}
use fluss_go_client.Metadata.Cache.{
  BucketRoute, Cache, new_cache, route_key, upsert_server, server, set_table, set_route, route,
}
use fluss_go_client.Metadata.Cache.Laws.{IsConsistent}
use fluss_go_client.Client.{
  PbServerNode, PbBucketMetadata, PbTableMetadata, MetadataResponse, Error, parse_server_node,
  parse_bucket_metadata, parse_buckets, parse_table_path, parse_table_metadata, set_routes,
  upsert_servers, ingest_tables, ingest_partitions, ingest_metadata, find_route, route_for,
}
use fluss_go_client.Client.Ingest.{
  Ingested, dialled, refreshed, IsRouteOf, Ingested-IsConsistent, route_for_leads,
}
use fluss_go_client.Client.Routing.{
  or_else, last_route, table_routes, partition_routes, route-ingest_metadata,
}

abbrev pb_server : PbServerNode
pb_server = record {
  node_id = some (pos 2);
  host = some (104 ∷ []);
  port = some (pos 9123);
  listeners = none;
  rack = none;
}

abbrev pb_bucket : PbBucketMetadata
pb_bucket = record {
  bucket_id = some (pos 3);
  leader_id = some (pos 2);
  leader_epoch = none;
  replica_id = pos 2 ∷ [];
}

abbrev no_leader : PbBucketMetadata
no_leader = record pb_bucket { leader_id = none }

abbrev pb_table : List PbBucketMetadata → PbTableMetadata
pb_table buckets = record {
  table_path = some (record { database_name = some (100 ∷ []); table_name = some (116 ∷ []) });
  table_id = some (pos 5);
  schema_id = some (pos 1);
  table_json = none;
  created_time = none;
  modified_time = none;
  bucket_metadata = buckets;
}

abbrev response : List PbBucketMetadata → MetadataResponse
response buckets = record {
  coordinator_server = none;
  tablet_servers = pb_server ∷ [];
  table_metadata = pb_table buckets ∷ [];
  partition_metadata = [];
}

abbrev refreshed_cache : Cache
refreshed_cache = (ingest_metadata (response (pb_bucket ∷ [])) new_cache).0

ingested : ingest_metadata (response (pb_bucket ∷ [])) new_cache ≡ (refreshed_cache, ok tt)
unfolding ingest_metadata ingest_tables ingest_partitions parse_table_metadata parse_table_path
    parse_buckets parse_bucket_metadata
ingested = refl

half_bad :
    (ingest_metadata (response (pb_bucket ∷ (no_leader ∷ []))) new_cache).1
    ≡ err Error.leader_missing
unfolding ingest_metadata ingest_tables parse_table_metadata parse_table_path parse_buckets
    parse_bucket_metadata
half_bad = refl

abbrev reached : Ingested refreshed_cache
reached = refreshed new_cache (response (pb_bucket ∷ [])) dialled

routed : route_for refreshed_cache (pos 5) none (pos 3) ≡ ok (parse_server_node pb_server)
unfolding route_for route server ingest_metadata ingest_tables ingest_partitions
    parse_table_metadata parse_table_path parse_buckets parse_bucket_metadata upsert_servers
    upsert_server set_table set_routes set_route find put route_key format_d digits_loop bytes_eq
    parse_server_node
routed = refl

Ingested-IsConsistent_example : IsConsistent refreshed_cache
Ingested-IsConsistent_example = Ingested-IsConsistent refreshed_cache reached

route_for_leads_example :
    (r : BucketRoute) × (find_route refreshed_cache (pos 5) none (pos 3) ≡ some r)
    × IsRouteOf (pos 5) none (pos 3) r
    × ((parse_server_node pb_server).id ≡ r.leader_id)
route_for_leads_example =
    route_for_leads refreshed_cache (pos 5) none (pos 3) (parse_server_node pb_server) reached
      routed

route-ingest_metadata_example :
    route refreshed_cache (pos 5) (pos 0) false (pos 3)
    ≡ or_else
        (last_route
          (pos 5)
          (pos 0)
          false
          (pos 3)
          (table_routes (pb_table (pb_bucket ∷ []) ∷ []) ++ partition_routes []))
        (route new_cache (pos 5) (pos 0) false (pos 3))
route-ingest_metadata_example =
    route-ingest_metadata (pos 5) (pos 0) false (pos 3) (response (pb_bucket ∷ [])) new_cache
      refreshed_cache ingested
