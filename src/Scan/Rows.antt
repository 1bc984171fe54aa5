-- ===== src/Scan/Rows.antt =====
-- client/row.go: ScanRows, with the rounds of its loop bounded by fuel. A result says whether the fuel ran
-- out; a scan ends only when its server says that there is no more.
use fluss_go_client.Prelude.{ℕ, zero, suc, Bool, true, false, leb, Option, List, [], ◌∷◌, ◌++◌}
use fluss_go_client.Prelude.Int.{ℤ}
use fluss_go_client.Result.{Result, ok, err, panic}
use fluss_go_client.Bytes.{Bytes}
use fluss_go_client.Row.Types.{Fields}
use fluss_go_client.Row.Value.{Items, Numbers}
use fluss_go_client.Metadata.Cache.{TablePath, Cache}
use fluss_go_client.Metadata.TableDescriptor.{TableDescriptor}
use fluss_go_client.Table.Retry.{GoError}
use fluss_go_client.Table.Send.{Net}
use fluss_go_client.Rows.{Error}
use fluss_go_client.Rows.Decoding.{decode_value_batch_rows}
use fluss_go_client.Rows.Encoding.{KvEncoding, kv_encoding}
use fluss_go_client.Scan.{
  KvScanner, ScanKvRequest, ScanKvResponse, ScanKvResult, new_kv_scanner, next, close,
}

-- What the loop returns, or that its fuel has run out.
pub data Scanned : Type 0 where
  unfinished : Scanned
  finished : Result Error (List Items) → Scanned

-- What a round leaves to do.
pub data Turn : Type 0 where
  stop : Result Error (List Items) → Turn
  more : List Items → ℕ → Turn

abbrev pub with_rows : Bool → Result Error (List Items) → Turn
with_rows has_more panic = Turn.stop panic
with_rows has_more (err e) = Turn.stop (err e)
with_rows false (ok rows) = Turn.stop (ok rows)
with_rows true (ok rows) = Turn.more rows 0

abbrev pub with_no_records : Bool → ℕ → Turn
with_no_records false empty_pages = Turn.stop (ok [])
with_no_records true empty_pages = elim (leb 2 (suc empty_pages)) [
  | true ↦ Turn.stop (err (Error.no_progress (suc empty_pages)))
  | false ↦ Turn.more [] (suc empty_pages)
]

abbrev pub page_turn : Fields → Bool → ℕ → Bool → Bytes → Turn
page_turn fs indexed empty_pages has_more [] = with_no_records has_more empty_pages
page_turn fs indexed empty_pages has_more (b ∷ bs) =
    with_rows has_more (decode_value_batch_rows fs (b ∷ bs) indexed)

-- A round, behind `Next`.
unfoldable pub scan_turn : Fields → Bool → ℕ → Result GoError ScanKvResult → Turn
scan_turn fs indexed empty_pages panic = Turn.stop panic
scan_turn fs indexed empty_pages (err e) = Turn.stop (err (Error.call e))
scan_turn fs indexed empty_pages (ok result) =
    page_turn fs indexed empty_pages result.has_more_results result.records

-- `out = append(out, rows...)` in front of what the rounds behind it give.
abbrev pub in_front : List Items → Scanned → Scanned
in_front rows Scanned.unfinished = Scanned.unfinished
in_front rows (Scanned.finished panic) = Scanned.finished panic
in_front rows (Scanned.finished (err e)) = Scanned.finished (err e)
in_front rows (Scanned.finished (ok rest)) = Scanned.finished (ok (rows ++ rest))

module _ {W : Type 0} (net : Net W) (endpoint : Bytes) (path : TablePath)
    (scan_kv : W → Bytes → ScanKvRequest → W × Result GoError ScanKvResponse) (fs : Fields) where
  abbrev Scanning : Type 0
  Scanning = W × Cache × KvScanner

  -- The loop of `ScanRows`.
  unfoldable pub scan_loop : Bool → ℕ → Scanning → ℕ → Scanning × Scanned
  scan_loop indexed zero s empty_pages = (s, Scanned.unfinished)
  scan_loop indexed (suc fuel) s empty_pages =
      let (s', page) = next net endpoint path scan_kv s in
      elim (scan_turn fs indexed empty_pages page) [
        | Turn.stop result ↦ (s', Scanned.finished result)
        | Turn.more rows empty_pages' ↦
            let (s'', rest) = scan_loop indexed fuel s' empty_pages' in (s'', in_front rows rest)
      ]

  -- The deferred `Close`; its error is dropped.
  abbrev pub closed : Scanning × Scanned → (W × Cache) × Scanned
  closed (s, scanned) = let s' = (close net endpoint path scan_kv s).0 in ((s'.0, s'.1), scanned)

  -- ScanRows behind kvEncoding.
  abbrev pub scan_opened :
      ℕ
      → Option ℤ
      → ℤ
      → Option ℤ
      → ℤ
      → (W × Cache) × Result Error KvEncoding
      → (W × Cache) × Scanned
  scan_opened fuel partition_id bucket_id limit batch_size_bytes (s, panic) =
      (s, Scanned.finished panic)
  scan_opened fuel partition_id bucket_id limit batch_size_bytes (s, err e) =
      (s, Scanned.finished (err e))
  scan_opened fuel partition_id bucket_id limit batch_size_bytes ((w, c), ok e) = closed (
      scan_loop e.indexed fuel (w, c, new_kv_scanner partition_id bucket_id limit batch_size_bytes)
        0)

  unfoldable pub scan_rows :
      (Bytes → Option TableDescriptor)
      → Numbers
      → ℕ
      → W × Cache
      → Option ℤ
      → ℤ
      → Option ℤ
      → ℤ
      → (W × Cache) × Scanned
  scan_rows unmarshal num fuel s partition_id bucket_id limit batch_size_bytes =
      scan_opened fuel partition_id bucket_id limit batch_size_bytes
        (kv_encoding net endpoint path unmarshal num s)
