-- ===== src/Scan/Complete.antt =====
-- client/row.go: rows that ScanRows returns are all rows of the pages up to the last one.
use fluss_go_client.Prelude.{
  ℕ, zero, suc, ◌≡◌, refl, ap, sym, ◌∙◌, Bool, true, false, leb, List, [], ◌∷◌, ◌++◌, arith,
}
use fluss_go_client.Result.{Result, ok, err, panic}
use fluss_go_client.Bytes.{Bytes}
use fluss_go_client.Row.Types.{Fields}
use fluss_go_client.Row.Value.{Items}
use fluss_go_client.Metadata.Cache.{TablePath, Cache}
use fluss_go_client.Table.Retry.{GoError}
use fluss_go_client.Table.Send.{Net}
use fluss_go_client.Rows.{Error}
use fluss_go_client.Rows.Decoding.{decode_value_batch_rows}
use fluss_go_client.Scan.{KvScanner, ScanKvRequest, ScanKvResponse, ScanKvResult, next}
use fluss_go_client.Scan.Requests.{Paged, stop, page}
use fluss_go_client.Scan.Rows.{
  Scanned, Turn, with_rows, with_no_records, page_turn, scan_turn, in_front, scan_loop,
}
use fluss_go_client.Scan.Drained.{Holds, last_empty, last_rows, empty_page, row_page}

module _ (fs : Fields) (indexed : Bool) where
  rows_stop :
      (has_more : Bool) (decoded : Result Error (List Items)) (out : List Items)
      → with_rows has_more decoded ≡ Turn.stop (ok out)
      → (has_more ≡ false) × (decoded ≡ ok out)
  rows_stop has_more panic out e = absurd (cc)
  rows_stop has_more (err x) out e = absurd (cc)
  rows_stop false (ok rows) out e = (refl, cc)
  rows_stop true (ok rows) out e = absurd (cc)

  rows_more :
      (has_more : Bool) (decoded : Result Error (List Items)) (rows : List Items) (m : ℕ)
      → with_rows has_more decoded ≡ Turn.more rows m
      → (has_more ≡ true) × (decoded ≡ ok rows) × (m ≡ 0)
  rows_more has_more panic rows m e = absurd (cc)
  rows_more has_more (err x) rows m e = absurd (cc)
  rows_more false (ok r) rows m e = absurd (cc)
  rows_more true (ok r) rows m e = (refl, cc, cc)

  no_stop : (n : ℕ) (out : List Items) → with_no_records true n ≡ Turn.stop (ok out) → ⊥
  no_stop zero out e = cc
  no_stop (suc n) out e =
      let over : leb 2 (suc (suc n)) ≡ true = ground arith in
      let same : Turn.stop (err (Error.no_progress (suc (suc n)))) ≡ Turn.stop (ok out) =
        rw (over, with_no_records) at e in
      cc

  only_first :
      (n m : ℕ) (rows : List Items)
      → with_no_records true n ≡ Turn.more rows m
      → (n ≡ 0) × (m ≡ 1) × (rows ≡ [])
  only_first zero m rows e = (refl, cc, cc)
  only_first (suc n) m rows e =
      let over : leb 2 (suc (suc n)) ≡ true = ground arith in
      let same : Turn.stop (err (Error.no_progress (suc (suc n)))) ≡ Turn.more rows m =
        rw (over, with_no_records) at e in
      absurd (cc)

  page_stop :
      (n : ℕ) (r : ScanKvResult) (has_more : Bool) (records : Bytes) (out : List Items)
      → r.has_more_results ≡ has_more
      → r.records ≡ records
      → page_turn fs indexed n has_more records ≡ Turn.stop (ok out)
      → Holds fs indexed n (r ∷ []) out
  page_stop n r false [] out eh er e =
      let nothing : [] ≡ out = cc in rw (sym nothing) (last_empty n r er eh)
  page_stop n r true [] out eh er e = absurd (no_stop n out e)
  page_stop n r has_more (b ∷ bs) out eh er e =
      let (none_left, decoded) =
        rows_stop has_more (decode_value_batch_rows fs (b ∷ bs) indexed) out e in
      last_rows n r b bs out er (eh ∙ none_left) decoded

  page_more :
      (n m : ℕ) (r : ScanKvResult) (has_more : Bool) (records : Bytes) (rows out : List Items)
      (rs : List ScanKvResult)
      → r.has_more_results ≡ has_more
      → r.records ≡ records
      → page_turn fs indexed n has_more records ≡ Turn.more rows m
      → Holds fs indexed m rs out
      → Holds fs indexed n (r ∷ rs) (rows ++ out)
  page_more n m r false [] rows out rs eh er e h = absurd (cc)
  page_more n m r true [] rows out rs eh er e h =
      let (e1, e2, e3) = only_first n m rows e in
      rw e3 (empty_page n r rs out e1 er eh (rw e2 at h))
  page_more n m r has_more (b ∷ bs) rows out rs eh er e h =
      let (more_left, decoded, e3) =
        rows_more has_more (decode_value_batch_rows fs (b ∷ bs) indexed) rows m e in
      row_page n r rs b bs rows out er (eh ∙ more_left) decoded (rw e3 at h)

  turn_stop :
      (n : ℕ) (answer : Result GoError ScanKvResult) (out : List Items)
      → scan_turn fs indexed n answer ≡ Turn.stop (ok out)
      → (r : ScanKvResult) × (answer ≡ ok r) × Holds fs indexed n (r ∷ []) out
  unfolding scan_turn
  turn_stop n panic out e = absurd (cc)
  turn_stop n (err x) out e = absurd (cc)
  turn_stop n (ok r) out e = (r, refl, page_stop n r r.has_more_results r.records out refl refl e)

  turn_more :
      (n m : ℕ) (answer : Result GoError ScanKvResult) (rows : List Items)
      → scan_turn fs indexed n answer ≡ Turn.more rows m
      → (r : ScanKvResult) × (answer ≡ ok r)
        × ((rs : List ScanKvResult) (out : List Items)
            → Holds fs indexed m rs out
            → Holds fs indexed n (r ∷ rs) (rows ++ out))
  unfolding scan_turn
  turn_more n m panic rows e = absurd (cc)
  turn_more n m (err x) rows e = absurd (cc)
  turn_more n m (ok r) rows e =
      (r, refl, λ rs out h. page_more n m r r.has_more_results r.records rows out rs refl refl e h)

rest_finished :
    (rows out : List Items) (rest : Scanned)
    → in_front rows rest ≡ Scanned.finished (ok out)
    → (more : List Items) × (rest ≡ Scanned.finished (ok more)) × (rows ++ more ≡ out)
rest_finished rows out Scanned.unfinished e = absurd (cc)
rest_finished rows out (Scanned.finished panic) e = absurd (cc)
rest_finished rows out (Scanned.finished (err x)) e = absurd (cc)
rest_finished rows out (Scanned.finished (ok more)) e = (more, refl, cc)

module _ {W : Type 0} (net : Net W) (endpoint : Bytes) (path : TablePath)
    (scan_kv : W → Bytes → ScanKvRequest → W × Result GoError ScanKvResponse) (fs : Fields)
    (indexed : Bool) where
  abbrev Scanning : Type 0
  Scanning = W × Cache × KvScanner

  -- What the loop does with a turn.
  abbrev follow : ℕ → Scanning → Turn → Scanning × Scanned
  follow fuel s1 (Turn.stop result) = (s1, Scanned.finished result)
  follow fuel s1 (Turn.more rows m) =
      let (s2, rest) = scan_loop net endpoint path scan_kv fs indexed fuel s1 m in
      (s2, in_front rows rest)

  followed :
      (fuel n : ℕ) (s s' : Scanning) (out : List Items) (t : Turn)
      → scan_turn fs indexed n (next net endpoint path scan_kv s).1 ≡ t
      → follow fuel (next net endpoint path scan_kv s).0 t ≡ (s', Scanned.finished (ok out))
      → ((m : ℕ) (s1 : Scanning) (more : List Items)
          → scan_loop net endpoint path scan_kv fs indexed fuel s1 m
            ≡ (s', Scanned.finished (ok more))
          → (pages : List ScanKvResult) × Paged net endpoint path scan_kv s1 pages s'
            × Holds fs indexed m pages more)
      → (pages : List ScanKvResult) × Paged net endpoint path scan_kv s pages s'
        × Holds fs indexed n pages out
  followed fuel n s s' out (Turn.stop result) et e behind =
      let last : result ≡ ok out = done result (ap (λ x. x.1) e) in
      let (r, e1, holds) =
        turn_stop fs indexed n (next net endpoint path scan_kv s).1 out (et ∙ ap Turn.stop last) in
      (r ∷ [], page s s' s' r [] (λ i. ((e i).0, e1 i)) (stop s'), holds)
    where
      done :
          (x : Result Error (List Items))
          → Scanned.finished x ≡ Scanned.finished (ok out)
          → x ≡ ok out
      done x h = cc
  followed fuel n s s' out (Turn.more rows m) et e behind =
      let s1 = (next net endpoint path scan_kv s).0 in
      let rest = scan_loop net endpoint path scan_kv fs indexed fuel s1 m in
      let (more, e2, e3) = rest_finished rows out (rest.1) (ap (λ x. x.1) e) in
      let (pages, paged, holds) = behind m s1 more (λ i. ((e i).0, e2 i)) in
      let (r, e1, with_page) =
        turn_more fs indexed n m (next net endpoint path scan_kv s).1 rows et in
      (
        r ∷ pages,
        page s s1 s' r pages (λ i. (s1, e1 i)) paged,
        rw (sym e3) (with_page pages more holds),
      )

  -- If the loop of ScanRows returns rows, the scanner gave pages up to one that says there is no more,
  -- and the rows are those of all these pages in order. No two empty pages that say there is more follow
  -- each other, and the first page is none of them if the loop was entered behind such a page.
  pub scan_loop_complete :
      (fuel n : ℕ) (s s' : Scanning) (out : List Items)
      → scan_loop net endpoint path scan_kv fs indexed fuel s n ≡ (s', Scanned.finished (ok out))
      → (pages : List ScanKvResult) × Paged net endpoint path scan_kv s pages s'
        × Holds fs indexed n pages out
  unfolding scan_loop
  scan_loop_complete zero n s s' out e = absurd (cc)
  scan_loop_complete (suc fuel) n s s' out e =
      followed fuel n s s' out (scan_turn fs indexed n (next net endpoint path scan_kv s).1) refl e
        (λ m s1 more h. scan_loop_complete fuel m s1 s' more h)
