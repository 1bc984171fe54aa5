-- ===== src/Table/Read/Calls.antt =====
-- client/table.go: Lookup, PrefixLookup, FetchLog and LimitScan. The remote calls, and the orders in which
-- Go walks the maps, are a parameter (`Reads`) beside `Net`.
use fluss_go_client.Prelude.{Bool, Option, List, [], ◌∷◌, ◌++◌, map}
use fluss_go_client.Prelude.Int.{ℤ}
use fluss_go_client.Result.{Result, ok, err, panic, ◌>>=◌}
use fluss_go_client.Bytes.{Bytes}
use fluss_go_client.Metadata.Cache.{TablePath, Cache, address}
use fluss_go_client.Table.Retry.{GoError}
use fluss_go_client.Table.Send.{GroupsOf, Net, on_ok}
use fluss_go_client.Table.Send.Routes.{ensure_table_info, table_route_for, group_by_leader}
use fluss_go_client.Table.Read.{
  LookupBucketRequest, LookupBucketValues, PrefixLookupBucketValues, FetchBucketRequest,
  FetchedBucket, LimitScanResult, LookupRequest, PrefixLookupRequest, FetchLogRequest,
  LimitScanRequest, PbLookupRespForBucket, PbPrefixLookupRespForBucket, PbFetchLogRespForBucket,
  LimitScanResponse, build_lookup_bucket, build_fetch_log_bucket, parse_lookup_results,
  parse_prefix_lookup_results, parse_fetch_results, parse_limit_scan,
}

pub record Reads (W : Type 0) : Type 0 where
  pub lookup : W → Bytes → LookupRequest → W × Result GoError (List PbLookupRespForBucket)
  pub prefix_lookup :
      W → Bytes → PrefixLookupRequest → W × Result GoError (List PbPrefixLookupRespForBucket)
  pub fetch_log :
      W → Bytes → FetchLogRequest → W × Result GoError (List (List PbFetchLogRespForBucket))
  pub limit_scan : W → Bytes → LimitScanRequest → W × Result GoError LimitScanResponse
  pub walk_lookups : GroupsOf LookupBucketRequest → GroupsOf LookupBucketRequest
  pub walk_fetches : GroupsOf FetchBucketRequest → GroupsOf FetchBucketRequest

-- The results of an answer before those of the rounds behind it.
abbrev pub ahead :
    {W B : Type 0} → List B → W × Result GoError (List B) → W × Result GoError (List B)
ahead results (w, panic) = (w, panic)
ahead results (w, err e) = (w, err e)
ahead results (w, ok more) = (w, ok (results ++ more))

-- The loop over the leaders, which ends at the first error. An answer is read by `parse`.
module _ {W A B Resp : Type 0} (invoke : W → Bytes → List A → W × Result GoError Resp)
    (parse : Resp → Result GoError (List B)) where
  unfoldable pub gather : W → GroupsOf A → W × Result GoError (List B)
  gather w [] = (w, ok [])
  gather w ((addr, items) ∷ groups) =
      let (w', answer) = invoke w addr items in
      on_ok w' (answer >>= parse) (λ results. ahead results (gather w' groups))

module _ {W : Type 0} (net : Net W) (endpoint : Bytes) (path : TablePath) where
  abbrev pub State : Type 0
  State = W × Cache

  abbrev pub beside : {B : Type 0} → Cache → W × Result GoError B → State × Result GoError B
  beside c (w, result) = ((w, c), result)

  -- What the reads by leaders share: the info of the table, the groups, and the loop over them.
  unfoldable pub read_leaders :
      {A B Resp : Type 0}
      → (A → Option ℤ)
      → (A → ℤ)
      → (GroupsOf A → GroupsOf A)
      → (ℤ → W → Bytes → List A → W × Result GoError Resp)
      → (Resp → Result GoError (List B))
      → State
      → List A
      → State × Result GoError (List B)
  read_leaders partition_of bucket_of walk invoke parse s reqs =
      let (s1, found) = ensure_table_info net endpoint path s in
      on_ok s1 found (λ info.
        let (s2, groups) =
          group_by_leader net endpoint path partition_of bucket_of s1 info.id [] reqs in
        on_ok s2 groups
          (λ grouped. beside (s2.1) (gather (invoke info.id) parse (s2.0) (walk grouped))))

  module _ (calls : Reads W) where
    abbrev pub invoke_lookup :
        Option Bool
        → Option ℤ
        → Option ℤ
        → ℤ
        → W
        → Bytes
        → List LookupBucketRequest
        → W × Result GoError (List PbLookupRespForBucket)
    invoke_lookup insert acks timeout_ms table_id w addr items = calls.lookup w addr (record {
      table_id = table_id;
      buckets_req = map build_lookup_bucket items;
      insert_if_not_exists = insert;
      acks = acks;
      timeout_ms = timeout_ms;
    })

    -- `Lookup` and `lookupCommon`
    unfoldable pub lookup :
        State
        → List LookupBucketRequest
        → Option Bool
        → Option ℤ
        → Option ℤ
        → State × Result GoError (List LookupBucketValues)
    lookup s reqs insert acks timeout_ms =
        read_leaders (λ r. r.partition_id) (λ r. r.bucket_id) calls.walk_lookups
          (invoke_lookup insert acks timeout_ms) parse_lookup_results s reqs

    abbrev pub invoke_prefix_lookup :
        ℤ
        → W
        → Bytes
        → List LookupBucketRequest
        → W × Result GoError (List PbPrefixLookupRespForBucket)
    invoke_prefix_lookup table_id w addr items =
        calls.prefix_lookup w addr
          (record { table_id = table_id; buckets_req = map build_lookup_bucket items })

    unfoldable pub prefix_lookup :
        State → List LookupBucketRequest → State × Result GoError (List PrefixLookupBucketValues)
    prefix_lookup s reqs =
        read_leaders (λ r. r.partition_id) (λ r. r.bucket_id) calls.walk_lookups
          invoke_prefix_lookup parse_prefix_lookup_results s reqs

    abbrev pub has_fields : List ℤ → Bool
    has_fields [] = Bool.false
    has_fields (f ∷ fs) = Bool.true

    abbrev pub invoke_fetch_log :
        ℤ
        → ℤ
        → Option ℤ
        → Option ℤ
        → List ℤ
        → ℤ
        → W
        → Bytes
        → List FetchBucketRequest
        → W × Result GoError (List (List PbFetchLogRespForBucket))
    invoke_fetch_log follower max_bytes max_wait min_bytes projected table_id w addr items =
        calls.fetch_log w addr (record {
          follower_server_id = follower;
          max_bytes = max_bytes;
          tables_req =
              record {
                table_id = table_id;
                projection_pushdown_enabled = has_fields projected;
                projected_fields = projected;
                buckets_req = map build_fetch_log_bucket items;
              }
              ∷ [];
          max_wait_ms = max_wait;
          min_bytes = min_bytes;
        })

    -- `FetchLogWithOptions`, with `opts.ProjectedFields`
    unfoldable pub fetch_log_with_options :
        State
        → ℤ
        → ℤ
        → Option ℤ
        → Option ℤ
        → List FetchBucketRequest
        → List ℤ
        → State × Result GoError (List FetchedBucket)
    fetch_log_with_options s follower max_bytes max_wait min_bytes buckets projected =
        read_leaders (λ r. r.partition_id) (λ r. r.bucket_id) calls.walk_fetches
          (invoke_fetch_log follower max_bytes max_wait min_bytes projected) parse_fetch_results s
          buckets

    unfoldable pub fetch_log :
        State
        → ℤ
        → ℤ
        → Option ℤ
        → Option ℤ
        → List FetchBucketRequest
        → State × Result GoError (List FetchedBucket)
    fetch_log s follower max_bytes max_wait min_bytes buckets =
        fetch_log_with_options s follower max_bytes max_wait min_bytes buckets []

    unfoldable pub limit_scan : State → Option ℤ → ℤ → ℤ → State × Result GoError LimitScanResult
    limit_scan s partition_id bucket_id limit =
        let (s1, found) = ensure_table_info net endpoint path s in
        on_ok s1 found (λ info.
          let (s2, leader) = table_route_for net endpoint path s1 info.id partition_id bucket_id in
          on_ok s2 leader (λ node.
            let (w, answer) = calls.limit_scan (s2.0) (address node) (record {
              table_id = info.id;
              partition_id = partition_id;
              bucket_id = bucket_id;
              limit = limit;
            }) in
            ((w, s2.1), answer >>= parse_limit_scan)))
