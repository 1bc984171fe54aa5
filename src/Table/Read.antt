-- ===== src/Table/Read.antt =====
-- client/table.go, client/parse.go and client/pb.go: the messages of lookups, prefix lookups, fetches and
-- limit scans, and what is read of the answers.
pub mod Calls
pub mod Gathering
pub mod Returning
mod Runs
use fluss_go_client.Prelude.{Bool, true, false, Option, none, some, List, [], ◌∷◌, ◌++◌, map}
use fluss_go_client.Prelude.Int.{ℤ}
use fluss_go_client.Result.{Result, ok, err, ◌>>=◌, ◌>>◌}
use fluss_go_client.Bytes.{Bytes}
use fluss_go_client.Client.{or_zero, or_empty}
use fluss_go_client.Table.Retry.{GoError}
use fluss_go_client.Table.Send.{bucket_api_error}

pub record LookupBucketRequest : Type 0 where
  pub partition_id : Option ℤ
  pub bucket_id : ℤ
  pub keys : List Bytes

-- A nil value is `none`.
pub record LookupBucketValues : Type 0 where
  pub partition_id : Option ℤ
  pub bucket_id : ℤ
  pub values : List (Option Bytes)

pub record PrefixLookupBucketValues : Type 0 where
  pub partition_id : Option ℤ
  pub bucket_id : ℤ
  pub values : List (List (Option Bytes))

pub record FetchBucketRequest : Type 0 where
  pub partition_id : Option ℤ
  pub bucket_id : ℤ
  pub fetch_offset : ℤ
  pub max_fetch_bytes : ℤ

pub record FetchedBucket : Type 0 where
  pub partition_id : Option ℤ
  pub bucket_id : ℤ
  pub high_watermark : ℤ
  pub log_start_offset : ℤ
  pub filtered_end_offset : Option ℤ
  pub records : Bytes

pub record LimitScanResult : Type 0 where
  pub is_log_table : Bool
  pub records : Bytes

-- The requests. A required number that is always set is no Option.
pub record PbLookupReqForBucket : Type 0 where
  pub partition_id : Option ℤ
  pub bucket_id : ℤ
  pub keys : List Bytes

pub record LookupRequest : Type 0 where
  pub table_id : ℤ
  pub buckets_req : List PbLookupReqForBucket
  pub insert_if_not_exists : Option Bool
  pub acks : Option ℤ
  pub timeout_ms : Option ℤ

pub record PrefixLookupRequest : Type 0 where
  pub table_id : ℤ
  pub buckets_req : List PbLookupReqForBucket

pub record PbFetchLogReqForBucket : Type 0 where
  pub partition_id : Option ℤ
  pub bucket_id : ℤ
  pub fetch_offset : ℤ
  pub max_fetch_bytes : ℤ

pub record PbFetchLogReqForTable : Type 0 where
  pub table_id : ℤ
  pub projection_pushdown_enabled : Bool
  pub projected_fields : List ℤ
  pub buckets_req : List PbFetchLogReqForBucket

pub record FetchLogRequest : Type 0 where
  pub follower_server_id : ℤ
  pub max_bytes : ℤ
  pub tables_req : List PbFetchLogReqForTable
  pub max_wait_ms : Option ℤ
  pub min_bytes : Option ℤ

pub record LimitScanRequest : Type 0 where
  pub table_id : ℤ
  pub partition_id : Option ℤ
  pub bucket_id : ℤ
  pub limit : ℤ

-- The answers for a bucket.
pub record PbLookupRespForBucket : Type 0 where
  pub partition_id : Option ℤ
  pub bucket_id : Option ℤ
  pub error_code : Option ℤ
  pub error_message : Option Bytes
  pub values : List (Option Bytes)

pub record PbPrefixLookupRespForBucket : Type 0 where
  pub partition_id : Option ℤ
  pub bucket_id : Option ℤ
  pub error_code : Option ℤ
  pub error_message : Option Bytes
  pub value_lists : List (List Bytes)

pub record PbFetchLogRespForBucket : Type 0 where
  pub partition_id : Option ℤ
  pub bucket_id : Option ℤ
  pub error_code : Option ℤ
  pub error_message : Option Bytes
  pub high_watermark : Option ℤ
  pub log_start_offset : Option ℤ
  pub records : Bytes
  pub filtered_end_offset : Option ℤ

pub record LimitScanResponse : Type 0 where
  pub error_code : Option ℤ
  pub error_message : Option Bytes
  pub is_log_table : Option Bool
  pub records : Bytes

-- `buildLookupBucket` and `buildPrefixLookupBucket`, whose messages have the same fields.
unfoldable pub build_lookup_bucket : LookupBucketRequest → PbLookupReqForBucket
build_lookup_bucket req = record {
  partition_id = req.partition_id;
  bucket_id = req.bucket_id;
  keys = req.keys;
}

unfoldable pub build_fetch_log_bucket : FetchBucketRequest → PbFetchLogReqForBucket
build_fetch_log_bucket req = record {
  partition_id = req.partition_id;
  bucket_id = req.bucket_id;
  fetch_offset = req.fetch_offset;
  max_fetch_bytes = req.max_fetch_bytes;
}

-- `append([]byte(nil), value...)`, which is nil for an empty value.
abbrev pub copied : Bytes → Option Bytes
copied [] = none
copied (b ∷ bs) = some (b ∷ bs)

abbrev pub copied_value : Option Bytes → Option Bytes
copied_value none = none
copied_value (some bs) = copied bs

abbrev pub reject_error : Option GoError → Result GoError Unit
reject_error none = ok tt
reject_error (some e) = err e

-- `if err := bucketAPIError(...); err != nil { return nil, err }`
abbrev pub check_bucket : Option ℤ → Option Bytes → Result GoError Unit
check_bucket code message = reject_error (bucket_api_error (or_zero code) (or_empty message))

unfoldable pub parse_lookup_results :
    List PbLookupRespForBucket → Result GoError (List LookupBucketValues)
parse_lookup_results [] = ok []
parse_lookup_results (item ∷ items) = do
  check_bucket item.error_code item.error_message
  results ← parse_lookup_results items
  ok (
      record {
        partition_id = item.partition_id;
        bucket_id = or_zero item.bucket_id;
        values = map copied_value item.values;
      }
      ∷ results)

unfoldable pub parse_prefix_lookup_results :
    List PbPrefixLookupRespForBucket → Result GoError (List PrefixLookupBucketValues)
parse_prefix_lookup_results [] = ok []
parse_prefix_lookup_results (item ∷ items) = do
  check_bucket item.error_code item.error_message
  results ← parse_prefix_lookup_results items
  ok (
      record {
        partition_id = item.partition_id;
        bucket_id = or_zero item.bucket_id;
        values = map (λ values. map copied values) item.value_lists;
      }
      ∷ results)

-- The inner loop of `parseFetchResults`.
unfoldable pub parse_fetched : List PbFetchLogRespForBucket → Result GoError (List FetchedBucket)
parse_fetched [] = ok []
parse_fetched (item ∷ items) = do
  check_bucket item.error_code item.error_message
  results ← parse_fetched items
  ok (
      record {
        partition_id = item.partition_id;
        bucket_id = or_zero item.bucket_id;
        high_watermark = or_zero item.high_watermark;
        log_start_offset = or_zero item.log_start_offset;
        filtered_end_offset = item.filtered_end_offset;
        records = item.records;
      }
      ∷ results)

-- `parseFetchResults`, over the buckets of each table.
unfoldable pub parse_fetch_results :
    List (List PbFetchLogRespForBucket) → Result GoError (List FetchedBucket)
parse_fetch_results [] = ok []
parse_fetch_results (buckets ∷ tables) = do
  results ← parse_fetched buckets
  more ← parse_fetch_results tables
  ok (results ++ more)

abbrev pub or_false : Option Bool → Bool
or_false none = false
or_false (some b) = b

-- The end of `LimitScan`, behind the answer.
unfoldable pub parse_limit_scan : LimitScanResponse → Result GoError LimitScanResult
parse_limit_scan r = do
  check_bucket r.error_code r.error_message
  ok (record { is_log_table = or_false r.is_log_table; records = r.records })
