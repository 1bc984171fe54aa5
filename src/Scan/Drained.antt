-- ===== src/Scan/Drained.antt =====
-- client/row.go: ScanRows returns the rows of all pages, once its server says that there is no more.
use fluss_go_client.Prelude.{
  ℕ, zero, suc, ◌≤◌, ◌≡◌, refl, ap, ◌∙◌, Bool, true, false, Option, List, [], ◌∷◌, ◌++◌, length,
  arith,
}
use fluss_go_client.Prelude.Int.{ℤ}
use fluss_go_client.Result.{Result, ok}
use fluss_go_client.Bytes.{Bytes}
use fluss_go_client.Row.Types.{Fields}
use fluss_go_client.Row.Value.{Items, Numbers}
use fluss_go_client.Metadata.Cache.{TablePath, Cache}
use fluss_go_client.Metadata.TableDescriptor.{TableDescriptor}
use fluss_go_client.Table.Retry.{GoError}
use fluss_go_client.Table.Send.{Net}
use fluss_go_client.Rows.{Error}
use fluss_go_client.Rows.Decoding.{decode_value_batch_rows}
use fluss_go_client.Rows.Encoding.{KvEncoding, kv_encoding}
use fluss_go_client.Scan.{
  KvScanner, ScanKvRequest, ScanKvResponse, ScanKvResult, new_kv_scanner, next,
}
use fluss_go_client.Scan.Requests.{Paged, stop, page}
use fluss_go_client.Scan.Rows.{Scanned, Turn, scan_turn, scan_loop, scan_opened, scan_rows}

-- Pages of which the last one says that there is no more, with no two in a row that are empty and say
-- that there is more, and the rows of all of them. The number counts empty pages just before.
pub data Holds (fs : Fields) (indexed : Bool) : ℕ → List ScanKvResult → List Items → Type 0 where
  last_empty :
      (n : ℕ) (r : ScanKvResult)
      → r.records ≡ []
      → r.has_more_results ≡ false
      → Holds fs indexed n (r ∷ []) []
  last_rows :
      (n : ℕ) (r : ScanKvResult) (b : ℕ) (bs : Bytes) (rows : List Items)
      → r.records ≡ b ∷ bs
      → r.has_more_results ≡ false
      → decode_value_batch_rows fs (b ∷ bs) indexed ≡ ok rows
      → Holds fs indexed n (r ∷ []) rows
  empty_page :
      (n : ℕ) (r : ScanKvResult) (rs : List ScanKvResult) (out : List Items)
      → n ≡ 0
      → r.records ≡ []
      → r.has_more_results ≡ true
      → Holds fs indexed 1 rs out
      → Holds fs indexed n (r ∷ rs) out
  row_page :
      (n : ℕ) (r : ScanKvResult) (rs : List ScanKvResult) (b : ℕ) (bs : Bytes)
      (rows out : List Items)
      → r.records ≡ b ∷ bs
      → r.has_more_results ≡ true
      → decode_value_batch_rows fs (b ∷ bs) indexed ≡ ok rows
      → Holds fs indexed 0 rs out
      → Holds fs indexed n (r ∷ rs) (rows ++ out)

module _ {W : Type 0} (net : Net W) (endpoint : Bytes) (path : TablePath)
    (scan_kv : W → Bytes → ScanKvRequest → W × Result GoError ScanKvResponse) (fs : Fields)
    (indexed : Bool) where
  ends_round :
      (fuel n : ℕ) (s s1 : W × Cache × KvScanner) (r : ScanKvResult)
      (result : Result Error (List Items))
      → next net endpoint path scan_kv s ≡ (s1, ok r)
      → scan_turn fs indexed n (ok r) ≡ Turn.stop result
      → scan_loop net endpoint path scan_kv fs indexed (suc fuel) s n
        ≡ (s1, Scanned.finished result)
  unfolding scan_loop
  ends_round fuel n s s1 r result e t = rw (e, scan_loop) (rw t (rw (ap (λ x. x.0) e) refl))

  goes_on :
      (fuel n m : ℕ) (s s1 s2 : W × Cache × KvScanner) (r : ScanKvResult) (rows out : List Items)
      → next net endpoint path scan_kv s ≡ (s1, ok r)
      → scan_turn fs indexed n (ok r) ≡ Turn.more rows m
      → scan_loop net endpoint path scan_kv fs indexed fuel s1 m ≡ (s2, Scanned.finished (ok out))
      → scan_loop net endpoint path scan_kv fs indexed (suc fuel) s n
        ≡ (s2, Scanned.finished (ok (rows ++ out)))
  unfolding scan_loop
  goes_on fuel n m s s1 s2 r rows out e t rest =
      rw (e, scan_loop) (rw t (rw (ap (λ x. x.0) e) (rw rest refl)))

  -- Enough fuel is one round for each page.
  pub scan_loop-Holds :
      (fuel n : ℕ) (s s' : W × Cache × KvScanner) (pages : List ScanKvResult) (out : List Items)
      → Holds fs indexed n pages out
      → Paged net endpoint path scan_kv s pages s'
      → length pages ≤ fuel
      → scan_loop net endpoint path scan_kv fs indexed fuel s n ≡ (s', Scanned.finished (ok out))
  unfolding scan_turn
  scan_loop-Holds zero n s s' _ out (last_empty _ r e1 e2) h le = absurd (omega arith)
  scan_loop-Holds zero n s s' _ out (last_rows _ r b bs rows e1 e2 e3) h le = absurd (omega arith)
  scan_loop-Holds zero n s s' _ out (empty_page _ r rs _ z e1 e2 rest) h le = absurd (omega arith)
  scan_loop-Holds zero n s s' _ out (row_page _ r rs b bs rows _ e1 e2 e3 rest) h le =
      absurd (omega arith)
  scan_loop-Holds (suc fuel) n _ _ _ _ (last_empty _ r e1 e2) (page s s1 _ _ _ e (stop _)) le =
      ends_round fuel n s s1 r (ok []) e (rw e1 (rw e2 refl))
  scan_loop-Holds (suc fuel) n _ _ _ _ (last_rows _ r b bs rows e1 e2 e3)
        (page s s1 _ _ _ e (stop _)) le =
      ends_round fuel n s s1 r (ok rows) e (rw e1 (rw e3 (rw e2 refl)))
  scan_loop-Holds (suc fuel) n _ _ _ _ (empty_page _ r rs out z e1 e2 rest)
        (page s s1 s2 _ _ e more) le =
      goes_on fuel n 1 s s1 s2 r [] out e (rw e1 (rw e2 (rw z refl)))
        (scan_loop-Holds fuel 1 s1 s2 rs out rest more (omega arith))
  scan_loop-Holds (suc fuel) n _ _ _ _ (row_page _ r rs b bs rows out e1 e2 e3 rest)
        (page s s1 s2 _ _ e more) le =
      goes_on fuel n 0 s s1 s2 r rows out e (rw e1 (rw e3 (rw e2 refl)))
        (scan_loop-Holds fuel 0 s1 s2 rs out rest more (omega arith))

-- If the encoding of the table is found, a new scanner's answers are pages up to the first one that
-- says there is no more, every page with records decodes, and no two empty pages that say there is
-- more follow each other, ScanRows, with at least one round of its loop for each page, returns the
-- rows of all pages in order.
pub scan_rows_drains :
    {W : Type 0} (net : Net W) (endpoint : Bytes) (path : TablePath)
    (scan_kv : W → Bytes → ScanKvRequest → W × Result GoError ScanKvResponse) (fs : Fields)
    (unmarshal : Bytes → Option TableDescriptor) (num : Numbers) (fuel : ℕ) (s s1 : W × Cache)
    (e : KvEncoding) (partition_id : Option ℤ) (bucket_id : ℤ) (limit : Option ℤ) (batch_size : ℤ)
    (s2 : W × Cache × KvScanner) (pages : List ScanKvResult) (out : List Items)
    → kv_encoding net endpoint path unmarshal num s ≡ (s1, ok e)
    → Paged net endpoint path scan_kv
        (s1.0, s1.1, new_kv_scanner partition_id bucket_id limit batch_size)
        pages
        s2
    → Holds fs e.indexed 0 pages out
    → length pages ≤ fuel
    → (scan_rows net endpoint path scan_kv fs unmarshal num fuel s partition_id bucket_id limit
        batch_size).1
      ≡ Scanned.finished (ok out)
unfolding scan_rows
scan_rows_drains net endpoint path scan_kv fs unmarshal num fuel s s1 e partition_id bucket_id limit
      batch_size s2 pages out opened paged holds enough =
    let fresh = new_kv_scanner partition_id bucket_id limit batch_size in
    ap
      (λ x.
        (scan_opened net endpoint path scan_kv fs fuel partition_id bucket_id limit batch_size x).1)
      opened
    ∙ ap (λ x. x.1)
        (scan_loop-Holds net endpoint path scan_kv fs e.indexed fuel 0 (s1.0, s1.1, fresh) s2 pages
          out holds paged enough)
