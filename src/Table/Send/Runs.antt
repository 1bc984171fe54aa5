-- ===== src/Table/Send/Runs.antt =====
-- appendLogOnce at a concrete cluster: two leaders, of which the second one fails.
use fluss_go_client.Prelude.{◌≡◌, refl, true, none, some, if◌then◌else◌, List, [], ◌∷◌, ◌++◌}
use fluss_go_client.Prelude.Int.{ℤ, pos}
use fluss_go_client.Prelude.Maps.{find, put}
use fluss_go_client.Result.{Result, ok, err}
use fluss_go_client.Bytes.{Bytes}
use fluss_go_client.Bytes.Equal.{bytes_eq}
use fluss_go_client.Format.{format_d, digits_loop}
use fluss_go_client.Writer.Options.{BucketRecordBatch, clone_bucket_record_batches}
use fluss_go_client.Metadata.Cache.{
  Cache, new_cache, address, path_eq, route_key, upsert_server, server, set_table, table, set_route,
  route,
}
use fluss_go_client.Client.{route_for}
use fluss_go_client.Protocol.{unwrap}
use fluss_go_client.Table.Retry.{
  GoError, WriteError, Server, sort_results, terminal_error, is_retryable_write_route_err,
  append_log, attempts,
}
use fluss_go_client.Table.Send.{
  Net, Groups, PbProduceLogRespForBucket, api_error, parse_produce_results, add_to_group,
}
use fluss_go_client.Table.Sample.{path, info, cache, address_a, address_b, lost_leader, quiet_net}
use fluss_go_client.Table.Send.Routes.{ensure_table_info, table_route_for, group_batches_by_leader}
use fluss_go_client.Admin.{get_table_info}
use fluss_go_client.Table.Send.Known.{ensure_table_info_again}
use fluss_go_client.Table.Send.Once.{Outcome, send_loop, append_log_once}
use fluss_go_client.Table.Send.Groups.{items_of, items_at, Routed, group_batches_by_leader_lem}
use fluss_go_client.Table.Send.Failing.{
  Answered, Prepared, Sees, stop, next, append_log_once-Answered, append_log_resends,
}

abbrev batch : ℤ → BucketRecordBatch
batch id = record { partition_id = none; bucket_id = id; records = 1 ∷ [] }

abbrev batches : List BucketRecordBatch
batches = batch (pos 1) ∷ (batch (pos 2) ∷ [])

abbrev groups : Groups
groups = (address_a, batch (pos 1) ∷ []) ∷ ((address_b, batch (pos 2) ∷ []) ∷ [])

abbrev answer : PbProduceLogRespForBucket
answer = record {
  bucket_id = some (pos 1);
  partition_id = none;
  base_offset = some (pos 7);
  error_code = none;
  error_message = none;
}

abbrev answer_of : Bytes → Result GoError (List PbProduceLogRespForBucket)
answer_of addr = if bytes_eq addr address_a then ok (answer ∷ []) else err lost_leader

abbrev net : Net Unit
net = record {
  get_metadata = λ w addr paths. (w, err lost_leader);
  produce_log = λ w addr request. (w, answer_of addr);
  get_table_info = λ w addr p. (w, err lost_leader);
  walk = λ g. g;
}

grouped :
    group_batches_by_leader net [] path (tt, cache) (pos 5) [] batches ≡ ((tt, cache), ok groups)
unfolding group_batches_by_leader table_route_for route_for route server set_route upsert_server
    set_table find put route_key format_d digits_loop bytes_eq address add_to_group
grouped = refl

group_batches_by_leader_lem_example :
    (addrs : List Bytes) × Routed net [] path (pos 5) (tt, cache) batches addrs (tt, cache)
    × ((a : Bytes) → items_of groups a ≡ items_of [] a ++ items_at a addrs batches)
group_batches_by_leader_lem_example =
    group_batches_by_leader_lem net [] path (pos 5) (tt, cache) (tt, cache) [] groups batches
      grouped

table_known : ensure_table_info net [] path (tt, cache) ≡ ((tt, cache), ok info)
unfolding ensure_table_info table set_route upsert_server set_table put find path_eq bytes_eq
table_known = refl

cloned_grouped :
    group_batches_by_leader net [] path (tt, cache) (pos 5) [] (clone_bucket_record_batches batches)
    ≡ ((tt, cache), ok groups)
unfolding clone_bucket_record_batches
cloned_grouped = grouped

abbrev prepared :
    Prepared net [] path (tt, cache) (clone_bucket_record_batches batches) (pos 5) tt cache groups
prepared = record {
  between = (tt, cache);
  grouped = groups;
  found = info;
  info = table_known;
  id = refl;
  groups = cloned_grouped;
  walk = refl;
}

-- The requests to the first leader only, which answers.
abbrev first_groups : Groups
first_groups = (address_a, batch (pos 1) ∷ []) ∷ []

first_grouped :
    group_batches_by_leader net [] path (tt, cache) (pos 5) [] (batch (pos 1) ∷ [])
    ≡ ((tt, cache), ok first_groups)
unfolding group_batches_by_leader table_route_for route_for route server set_route upsert_server
    set_table find put route_key format_d digits_loop bytes_eq address add_to_group
first_grouped = refl

first-Answered :
    Answered net [] path
      (pos 1)
      (pos 9)
      (pos 5)
      tt
      first_groups
      ((parse_produce_results (answer ∷ [])).0 ++ [])
      ((parse_produce_results (answer ∷ [])).1 ++ [])
      tt
first-Answered =
    next tt tt tt address_a (batch (pos 1) ∷ []) (answer ∷ []) [] [] [] (unfold bytes_eq in refl)
      (stop tt)

append_log_once-Answered_example :
    append_log_once net [] path (tt, cache) (pos 1) (pos 9) (batch (pos 1) ∷ []) ≡ (
      (tt, cache),
      Outcome.returns
          (sort_results ((parse_produce_results (answer ∷ [])).0 ++ []))
          (terminal_error ((parse_produce_results (answer ∷ [])).1 ++ [])),
    )
append_log_once-Answered_example =
    append_log_once-Answered net [] path (pos 1) (pos 9) (pos 5) (tt, cache) (batch (pos 1) ∷ []) tt
      tt cache first_groups ((parse_produce_results (answer ∷ [])).0 ++ [])
      ((parse_produce_results (answer ∷ [])).1 ++ [])
      (record {
        between = (tt, cache);
        grouped = first_groups;
        found = info;
        info = table_known;
        id = refl;
        groups = first_grouped;
        walk = refl;
      })
      first-Answered

-- A server whose first attempt is appendLogOnce there.
abbrev losing : Server
losing = record {
  append_log_once = λ attempt pending. ([], some (WriteError.whole lost_leader));
  refresh_metadata = λ attempt. true;
}

lost_leader_retryable : is_retryable_write_route_err lost_leader ≡ true
unfolding is_retryable_write_route_err api_error unwrap
lost_leader_retryable = refl

losing-Sees :
    Sees losing 0
      (clone_bucket_record_batches batches)
      (append_log_once net [] path
        (tt, cache)
        (pos 1)
        (pos 9)
        (clone_bucket_record_batches batches)).1
unfolding append_log_once ensure_table_info send_loop clone_bucket_record_batches
    group_batches_by_leader table_route_for route_for route server table set_route upsert_server
    set_table find put path_eq route_key format_d digits_loop bytes_eq address add_to_group
losing-Sees = refl

append_log_resends_example :
    append_log losing batches ≡ attempts losing 1 1 [] (clone_bucket_record_batches batches)
append_log_resends_example =
    append_log_resends net [] path (pos 1) (pos 9) (pos 5) losing (tt, cache) batches tt tt tt cache
      first_groups [] address_b (batch (pos 2) ∷ []) ((parse_produce_results (answer ∷ [])).0 ++ [])
      ((parse_produce_results (answer ∷ [])).1 ++ []) lost_leader prepared first-Answered
      (unfold bytes_eq in refl) losing-Sees lost_leader_retryable refl

-- A server that knows the table.
abbrev knowing : Net Unit
knowing = record net {
  get_table_info = λ w addr p. (
    w,
    ok (record {
      table_id = some (pos 5);
      schema_id = some (pos 1);
      table_json = none;
      created_time = none;
      modified_time = none;
    }),
  );
}

abbrev with_table : Cache
with_table = set_table info new_cache

found_info : ensure_table_info knowing address_a path (tt, new_cache) ≡ ((tt, with_table), ok info)
unfolding ensure_table_info get_table_info set_table table find put path_eq
found_info = refl

ensure_table_info_again_example :
    ensure_table_info quiet_net address_b path (tt, with_table) ≡ ((tt, with_table), ok info)
ensure_table_info_again_example =
    ensure_table_info_again knowing address_a path quiet_net address_b tt (tt, new_cache)
      (tt, with_table) info found_info
