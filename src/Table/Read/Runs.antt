-- ===== src/Table/Read/Runs.antt =====
-- Lookup at a concrete cluster.
use fluss_go_client.Prelude.{◌≡◌, refl, none, some, if◌then◌else◌, [], ◌∷◌}
use fluss_go_client.Prelude.Int.{pos}
use fluss_go_client.Prelude.Maps.{find, put}
use fluss_go_client.Result.{ok, err}
use fluss_go_client.Bytes.Equal.{bytes_eq}
use fluss_go_client.Format.{format_d, digits_loop}
use fluss_go_client.Metadata.Cache.{
  address, path_eq, route_key, upsert_server, server, set_table, table, set_route, route,
}
use fluss_go_client.Client.{route_for}
use fluss_go_client.Table.Send.{GroupsOf, add_to_group, bucket_api_error}
use fluss_go_client.Table.Send.Routes.{ensure_table_info, table_route_for, group_by_leader}
use fluss_go_client.Table.Sample.{path, info, cache, address_a, lost_leader, quiet_net}
use fluss_go_client.Table.Read.{
  LookupBucketRequest, LookupBucketValues, PbLookupRespForBucket, build_lookup_bucket,
  parse_lookup_results,
}
use fluss_go_client.Table.Read.Calls.{Reads, gather, read_leaders, invoke_lookup, lookup}
use fluss_go_client.Table.Read.Gathering.{Gathered, stop, next, HasRead, lookup-HasRead}
use fluss_go_client.Table.Read.Returning.{read_leaders_returns}

abbrev request : LookupBucketRequest
request = record { partition_id = none; bucket_id = pos 1; keys = (9 ∷ []) ∷ ((8 ∷ []) ∷ []) }

abbrev answer : PbLookupRespForBucket
answer = record {
  partition_id = none;
  bucket_id = some (pos 1);
  error_code = none;
  error_message = none;
  values = some (7 ∷ []) ∷ (none ∷ []);
}

abbrev calls : Reads Unit
calls = record {
  lookup = λ w addr req. (w, if bytes_eq addr address_a then ok (answer ∷ []) else err lost_leader);
  prefix_lookup = λ w addr req. (w, err lost_leader);
  fetch_log = λ w addr req. (w, err lost_leader);
  limit_scan = λ w addr req. (w, err lost_leader);
  walk_lookups = λ g. g;
  walk_fetches = λ g. g;
}

abbrev values : LookupBucketValues
values = record { partition_id = none; bucket_id = pos 1; values = some (7 ∷ []) ∷ (none ∷ []) }

looked_up :
    lookup quiet_net [] path calls (tt, cache) (request ∷ []) none none none
    ≡ ((tt, cache), ok (values ∷ []))
unfolding lookup read_leaders gather ensure_table_info group_by_leader table_route_for route_for
    route server table set_route upsert_server set_table find put path_eq route_key format_d
    digits_loop bytes_eq address add_to_group build_lookup_bucket parse_lookup_results
    bucket_api_error
looked_up = refl

lookup-HasRead_example :
    HasRead quiet_net [] path
      (λ r. r.partition_id)
      (λ r. r.bucket_id)
      calls.walk_lookups
      (invoke_lookup quiet_net [] path calls none none none)
      parse_lookup_results
      (tt, cache)
      (request ∷ [])
      (values ∷ [])
      (tt, cache)
lookup-HasRead_example =
    lookup-HasRead quiet_net [] path calls (tt, cache) (tt, cache) (request ∷ []) none none none
      (values ∷ []) looked_up

abbrev groups : GroupsOf LookupBucketRequest
groups = (address_a, request ∷ []) ∷ []

grouped :
    group_by_leader quiet_net [] path
      (λ r. r.partition_id)
      (λ r. r.bucket_id)
      (tt, cache)
      (pos 5)
      []
      (request ∷ [])
    ≡ ((tt, cache), ok groups)
unfolding group_by_leader table_route_for route_for route server set_route upsert_server set_table
    find put path_eq route_key format_d digits_loop bytes_eq address add_to_group
grouped = refl

found : ensure_table_info quiet_net [] path (tt, cache) ≡ ((tt, cache), ok info)
unfolding ensure_table_info table set_route upsert_server set_table find put path_eq bytes_eq
found = refl

gathered :
    Gathered
      (invoke_lookup quiet_net [] path calls none none none (pos 5))
      parse_lookup_results
      tt
      groups
      (values ∷ [])
      tt
unfolding parse_lookup_results bytes_eq bucket_api_error
gathered =
    next tt tt tt address_a (request ∷ []) (ok (answer ∷ [])) (values ∷ []) [] [] refl refl
      (stop tt)

read_leaders_returns_example :
    read_leaders quiet_net [] path
      (λ r. r.partition_id)
      (λ r. r.bucket_id)
      calls.walk_lookups
      (invoke_lookup quiet_net [] path calls none none none)
      parse_lookup_results
      (tt, cache)
      (request ∷ [])
    ≡ ((tt, cache), ok (values ∷ []))
read_leaders_returns_example =
    read_leaders_returns quiet_net [] path (λ r. r.partition_id) (λ r. r.bucket_id)
      calls.walk_lookups (invoke_lookup quiet_net [] path calls none none none) parse_lookup_results
      (tt, cache) (tt, cache) tt tt cache (request ∷ []) info groups (values ∷ []) found grouped
      gathered
