-- ===== src/Scan.antt =====
-- client/scanner.go: the scanner of a KV table, and ScanRows of client/row.go, which drains it. The remote
-- call ScanKv is a parameter.
pub mod Rows
pub mod Requests
pub mod Drained
pub mod Complete
mod Runs
use fluss_go_client.Prelude.{
  ℕ, ◌+◌, ◌%◌, ◌^◌, Bool, true, false, Option, none, some, if◌then◌else◌, List, [], ◌∷◌,
}
use fluss_go_client.Prelude.Int.{ℤ, pos, ltb_ℤ}
use fluss_go_client.Result.{Result, ok, err, panic}
use fluss_go_client.Bytes.{Bytes}
use fluss_go_client.Metadata.Cache.{TablePath, Cache, address}
use fluss_go_client.Table.Retry.{GoError}
use fluss_go_client.Table.Send.{Net, on_ok}
use fluss_go_client.Table.Send.Routes.{ensure_table_info, table_route_for}
use fluss_go_client.Table.Read.{or_false, check_bucket}

-- `callSeqID` is an int32, as its bits.
pub record KvScanner : Type 0 where
  pub partition_id : Option ℤ
  pub bucket_id : ℤ
  pub limit : Option ℤ
  pub batch_size_bytes : ℤ
  pub scanner_id : Bytes
  pub call_seq_id : ℕ
  pub has_more : Bool
  pub started : Bool

unfoldable pub new_kv_scanner : Option ℤ → ℤ → Option ℤ → ℤ → KvScanner
new_kv_scanner partition_id bucket_id limit batch_size_bytes = record {
  partition_id = partition_id;
  bucket_id = bucket_id;
  limit = limit;
  batch_size_bytes = batch_size_bytes;
  scanner_id = [];
  call_seq_id = 0;
  has_more = false;
  started = false;
}

pub record PbScanReqForBucket : Type 0 where
  pub table_id : ℤ
  pub partition_id : Option ℤ
  pub bucket_id : ℤ
  pub limit : Option ℤ

-- An absent `scanner_id` is empty.
pub record ScanKvRequest : Type 0 where
  pub scanner_id : Bytes
  pub bucket_scan_req : Option PbScanReqForBucket
  pub call_seq_id : Option ℕ
  pub batch_size_bytes : Option ℤ
  pub close_scanner : Option Bool

pub record ScanKvResponse : Type 0 where
  pub error_code : Option ℤ
  pub error_message : Option Bytes
  pub scanner_id : Bytes
  pub has_more_results : Option Bool
  pub records : Bytes
  pub log_offset : Option ℤ

pub record ScanKvResult : Type 0 where
  pub scanner_id : Bytes
  pub has_more_results : Bool
  pub records : Bytes
  pub log_offset : Option ℤ

abbrev pub bucket_req : KvScanner → ℤ → PbScanReqForBucket
bucket_req k table_id = record {
  table_id = table_id;
  partition_id = k.partition_id;
  bucket_id = k.bucket_id;
  limit = k.limit;
}

-- The request of `Next`.
unfoldable pub scan_request : KvScanner → ℤ → ScanKvRequest
scan_request k table_id = record {
  scanner_id = if k.started then k.scanner_id else [];
  bucket_scan_req = if k.started then none else some (bucket_req k table_id);
  call_seq_id = some k.call_seq_id;
  batch_size_bytes = if ltb_ℤ (pos 0) k.batch_size_bytes then some k.batch_size_bytes else none;
  close_scanner = none;
}

-- The request of `Close`.
unfoldable pub close_request : KvScanner → ScanKvRequest
close_request k = record {
  scanner_id = k.scanner_id;
  bucket_scan_req = none;
  call_seq_id = none;
  batch_size_bytes = none;
  close_scanner = some true;
}

-- `Next` moves on at any answer, also at one with an error code.
unfoldable pub advance : KvScanner → KvScanner
advance k = record k { started = true; call_seq_id = (k.call_seq_id + 1) % 2 ^ 32 }

-- The id of an answer, or the one so far.
abbrev pub kept_id : Bytes → Bytes → Bytes
kept_id [] old = old
kept_id (b ∷ bs) old = b ∷ bs

abbrev pub scan_result : ScanKvResponse → ScanKvResult
scan_result r = record {
  scanner_id = r.scanner_id;
  has_more_results = or_false r.has_more_results;
  records = r.records;
  log_offset = r.log_offset;
}

abbrev pub accepted : KvScanner → ScanKvResponse → KvScanner
accepted k r = record k {
  scanner_id = kept_id r.scanner_id k.scanner_id;
  has_more = or_false r.has_more_results;
}

abbrev pub accept :
    KvScanner → ScanKvResponse → Result GoError Unit → KvScanner × Result GoError ScanKvResult
accept k r panic = (k, panic)
accept k r (err e) = (k, err e)
accept k r (ok u) = (accepted k r, ok (scan_result r))

-- The end of `Next`, behind the answer.
unfoldable pub take_answer : KvScanner → ScanKvResponse → KvScanner × Result GoError ScanKvResult
take_answer k r = accept (advance k) r (check_bucket r.error_code r.error_message)

module _ {W : Type 0} (net : Net W) (endpoint : Bytes) (path : TablePath)
    (scan_kv : W → Bytes → ScanKvRequest → W × Result GoError ScanKvResponse) where
  abbrev pub State : Type 0
  State = W × Cache × KvScanner

  abbrev pub with_scanner :
      {A : Type 0} → W → Cache → KvScanner × Result GoError A → State × Result GoError A
  with_scanner w c (k, result) = ((w, c, k), result)

  unfoldable pub next : State → State × Result GoError ScanKvResult
  next (w, c, k) =
      let (s1, found) = ensure_table_info net endpoint path (w, c) in
      on_ok (s1.0, s1.1, k) found
        (λ info.
          let (s2, leader) =
            table_route_for net endpoint path s1 info.id k.partition_id k.bucket_id in
          on_ok (s2.0, s2.1, k) leader
            (λ node.
              let (w', answer) = scan_kv (s2.0) (address node) (scan_request k info.id) in
              on_ok (w', s2.1, k) answer (λ r. with_scanner w' (s2.1) (take_answer k r))))

  abbrev pub forget : {A : Type 0} → Result GoError A → Result GoError Unit
  forget panic = panic
  forget (err e) = err e
  forget (ok a) = ok tt

  -- `Close`. Its answer is not looked at.
  unfoldable pub close : State → State × Result GoError Unit
  close (w, c, k) = elim k.scanner_id [
    | [] ↦ ((w, c, k), ok tt)
    | b ∷ bs ↦
        let (s1, found) = ensure_table_info net endpoint path (w, c) in
        on_ok (s1.0, s1.1, k) found
          (λ info.
            let (s2, leader) =
              table_route_for net endpoint path s1 info.id k.partition_id k.bucket_id in
            on_ok (s2.0, s2.1, k) leader
              (λ node.
                let (w', answer) = scan_kv (s2.0) (address node) (close_request k) in
                ((w', s2.1, k), forget answer)))
  ]
