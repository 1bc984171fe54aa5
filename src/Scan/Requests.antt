-- ===== src/Scan/Requests.antt =====
-- client/scanner.go: what the requests of a scanner say, whatever was answered.
use fluss_go_client.Prelude.{
  ◌+◌, ◌%◌, ◌^◌, ◌<◌, ◌≡◌, refl, ap, sym, ◌∙◌, Bool, true, false, Option, none, some, if◌then◌else◌,
  List, [], ◌∷◌, length, arith,
}
use fluss_go_client.Prelude.Int.{ℤ, pos, eq_ℤ, ltb_ℤ}
use fluss_go_client.Result.{Result, ok, err, panic, ok_injective}
use fluss_go_client.Bytes.{Bytes}
use fluss_go_client.Metadata.Cache.{TablePath, Cache, address}
use fluss_go_client.Client.{or_zero}
use fluss_go_client.Table.Retry.{GoError}
use fluss_go_client.Table.Send.{Net, bucket_api_error}
use fluss_go_client.Table.Send.Routes.{ensure_table_info, table_route_for}
use fluss_go_client.Table.Send.Groups.{went_on}
use fluss_go_client.Table.Read.{check_bucket}
use fluss_go_client.Scan.{
  KvScanner, ScanKvRequest, ScanKvResponse, ScanKvResult, new_kv_scanner, scan_request, advance,
  kept_id, accept, take_answer, next,
}

-- The last id that the pages named.
unfoldable pub last_id : List ScanKvResult → Bytes
last_id [] = []
last_id (r ∷ rs) = kept_id (last_id rs) r.scanner_id

abbrev pub is_first : List ScanKvResult → Bool
is_first [] = true
is_first (r ∷ rs) = false

-- A reference: the request behind some pages, by their number and their ids.
abbrev pub expected_request : ℤ → Option ℤ → ℤ → Option ℤ → ℤ → List ScanKvResult → ScanKvRequest
expected_request table_id partition_id bucket_id limit batch_size pages = record {
  scanner_id = last_id pages;
  bucket_scan_req =
      if is_first pages
      then some (record {
        table_id = table_id;
        partition_id = partition_id;
        bucket_id = bucket_id;
        limit = limit;
      })
      else none;
  call_seq_id = some (length pages % 2 ^ 32);
  batch_size_bytes = if ltb_ℤ (pos 0) batch_size then some batch_size else none;
  close_scanner = none;
}

-- What an answer that was accepted does to a scanner.
abbrev pub moved : KvScanner → ScanKvResult → KvScanner
moved k r = record k {
  started = true;
  call_seq_id = (k.call_seq_id + 1) % 2 ^ 32;
  scanner_id = kept_id r.scanner_id k.scanner_id;
  has_more = r.has_more_results;
}

abbrev pub moved_by : KvScanner → List ScanKvResult → KvScanner
moved_by k [] = k
moved_by k (r ∷ rs) = moved_by (moved k r) rs

taken :
    (k k' : KvScanner) (r : ScanKvResponse) (done : Result GoError Unit) (out : ScanKvResult)
    → accept (advance k) r done ≡ (k', ok out)
    → moved k out ≡ k'
unfolding advance
taken k k' r panic out e = absurd (cc)
taken k k' r (err x) out e = absurd (cc)
taken k k' r (ok u) out e = ap (moved k) (sym (ok_injective (ap (λ x. x.1) e))) ∙ ap (λ x. x.0) e

module _ {W : Type 0} (net : Net W) (endpoint : Bytes) (path : TablePath)
    (scan_kv : W → Bytes → ScanKvRequest → W × Result GoError ScanKvResponse) where
  -- Calls of Next that return a page each, one after the other.
  pub data Paged : W × Cache × KvScanner → List ScanKvResult → W × Cache × KvScanner → Type 0 where
    stop : (s : W × Cache × KvScanner) → Paged s [] s
    page :
        (s s1 s2 : W × Cache × KvScanner) (r : ScanKvResult) (rs : List ScanKvResult)
        → next net endpoint path scan_kv s ≡ (s1, ok r)
        → Paged s1 rs s2
        → Paged s (r ∷ rs) s2

  pub next_moves :
      (s s' : W × Cache × KvScanner) (r : ScanKvResult)
      → next net endpoint path scan_kv s ≡ (s', ok r)
      → moved (s.2) r ≡ s'.2
  unfolding next take_answer
  next_moves (w, c, k) s' r e =
      let first = ensure_table_info net endpoint path (w, c) in
      let (info, e1, e2) = went_on (first.0.0, first.0.1, k) s' (first.1) _ r e in
      let second = table_route_for net endpoint path (first.0) info.id k.partition_id k.bucket_id in
      let (node, e3, e4) = went_on (second.0.0, second.0.1, k) s' (second.1) _ r e2 in
      let sent = scan_kv (second.0.0) (address node) (scan_request k info.id) in
      let (answer, e5, e6) = went_on (sent.0, second.0.1, k) s' (sent.1) _ r e4 in
      taken k (s'.2) answer (check_bucket answer.error_code answer.error_message) r
        (λ i. ((e6 i).0.2, (e6 i).1))

  pub Paged-moved_by :
      (s s' : W × Cache × KvScanner) (rs : List ScanKvResult)
      → Paged s rs s'
      → moved_by (s.2) rs ≡ s'.2
  Paged-moved_by _ _ _ (stop s) = refl
  Paged-moved_by _ _ _ (page s s1 s2 r rs e h) =
      rw (next_moves s s1 r e) (Paged-moved_by s1 s2 rs h)

kept_id_assoc : (a b c : Bytes) → kept_id (kept_id a b) c ≡ kept_id a (kept_id b c)
kept_id_assoc [] b c = refl
kept_id_assoc (x ∷ a) b c = refl

id-moved_by :
    (k : KvScanner) (rs : List ScanKvResult)
    → (moved_by k rs).scanner_id ≡ kept_id (last_id rs) k.scanner_id
unfolding last_id
id-moved_by k [] = refl
id-moved_by k (r ∷ rs) =
    id-moved_by (moved k r) rs ∙ sym (kept_id_assoc (last_id rs) r.scanner_id k.scanner_id)

seq-moved_by :
    (k : KvScanner) (rs : List ScanKvResult)
    → (moved_by k rs).call_seq_id % 2 ^ 32 ≡ (k.call_seq_id + length rs) % 2 ^ 32
seq-moved_by k [] = omega arith
seq-moved_by k (r ∷ rs) = omega (arith, seq-moved_by (moved k r) rs)

-- The parts of a scanner that no answer touches, and its flags behind some pages.
kept_by :
    (k : KvScanner) (rs : List ScanKvResult)
    → ((moved_by k rs).partition_id ≡ k.partition_id)
      × ((moved_by k rs).bucket_id ≡ k.bucket_id)
      × ((moved_by k rs).limit ≡ k.limit)
      × ((moved_by k rs).batch_size_bytes ≡ k.batch_size_bytes)
kept_by k [] = (refl, refl, refl, refl)
kept_by k (r ∷ rs) = kept_by (moved k r) rs

stays_started :
    (k : KvScanner) (rs : List ScanKvResult) → k.started ≡ true → (moved_by k rs).started ≡ true
stays_started k [] h = h
stays_started k (r ∷ rs) h = stays_started (moved k r) rs refl

seq_bounded :
    (k : KvScanner) (rs : List ScanKvResult)
    → k.call_seq_id < 2 ^ 32
    → (moved_by k rs).call_seq_id < 2 ^ 32
seq_bounded k [] h = h
seq_bounded k (r ∷ rs) h = seq_bounded (moved k r) rs (omega arith)

kept_id_nil : (a : Bytes) → kept_id a [] ≡ a
kept_id_nil [] = refl
kept_id_nil (b ∷ bs) = refl

module _ (table_id : ℤ) (partition_id : Option ℤ) (bucket_id : ℤ) (limit : Option ℤ)
    (batch_size : ℤ) where
  abbrev fresh : KvScanner
  fresh = new_kv_scanner partition_id bucket_id limit batch_size

  same_request :
      (k : KvScanner) (rs : List ScanKvResult)
      → moved_by fresh rs ≡ k
      → scan_request k table_id
        ≡ expected_request table_id partition_id bucket_id limit batch_size rs
  unfolding new_kv_scanner scan_request last_id
  same_request k [] e = rw (sym e) refl
  same_request k (r ∷ rs) e =
      let (e1, e2, e3, e4) = kept_by fresh (r ∷ rs) in
      let started : (moved_by fresh (r ∷ rs)).started ≡ true =
        stays_started (moved fresh r) rs refl in
      let named = id-moved_by fresh (r ∷ rs) ∙ kept_id_nil (last_id (r ∷ rs)) in
      let counted : (moved_by fresh (r ∷ rs)).call_seq_id ≡ length (r ∷ rs) % 2 ^ 32 =
        omega (arith, seq-moved_by fresh (r ∷ rs), seq_bounded fresh (r ∷ rs)) in
      rw (sym e) (ground arith)

-- Behind any number of pages, the next request of a scanner opens the bucket with its limit exactly if
-- there was none yet, and otherwise names the last scanner id that was named; it carries the number of
-- pages, as an int32, as its sequence number, whatever other calls the pages took.
pub scan_request-Paged :
    {W : Type 0} (net : Net W) (endpoint : Bytes) (path : TablePath)
    (scan_kv : W → Bytes → ScanKvRequest → W × Result GoError ScanKvResponse)
    (partition_id : Option ℤ) (bucket_id : ℤ) (limit : Option ℤ) (batch_size table_id : ℤ)
    (w w' : W) (c c' : Cache) (k : KvScanner) (pages : List ScanKvResult)
    → Paged net endpoint path scan_kv
        (w, c, new_kv_scanner partition_id bucket_id limit batch_size)
        pages
        (w', c', k)
    → scan_request k table_id
      ≡ expected_request table_id partition_id bucket_id limit batch_size pages
scan_request-Paged net endpoint path scan_kv partition_id bucket_id limit batch_size table_id w w' c
      c' k pages h =
    same_request table_id partition_id bucket_id limit batch_size k pages (
      Paged-moved_by net endpoint path scan_kv
        (w, c, new_kv_scanner partition_id bucket_id limit batch_size) (w', c', k) pages h)

abbrev pub HasErrorCode : ScanKvResponse → Type 0
HasErrorCode r = eq_ℤ (or_zero r.error_code) (pos 0) ≡ false

-- A scanner behind answers.
abbrev pub answered_by : KvScanner → List ScanKvResponse → KvScanner
answered_by k [] = k
answered_by k (r ∷ rs) = answered_by (take_answer k r).0 rs

abbrev pub AllHaveErrorCodes : List ScanKvResponse → Type 0
AllHaveErrorCodes [] = Unit {0}
AllHaveErrorCodes (r ∷ rs) = HasErrorCode r × AllHaveErrorCodes rs

only_advances :
    (k : KvScanner) (r : ScanKvResponse) → HasErrorCode r → (take_answer k r).0 ≡ advance k
unfolding take_answer bucket_api_error
only_advances k r h = rw h refl

nameless :
    (k : KvScanner) (rs : List ScanKvResponse)
    → AllHaveErrorCodes rs
    → k.started ≡ true
    → k.scanner_id ≡ []
    → ((answered_by k rs).started ≡ true) × ((answered_by k rs).scanner_id ≡ [])
unfolding advance
nameless k [] h s e = (s, e)
nameless k (r ∷ rs) h s e =
    nameless (take_answer k r).0 rs h.1 (ap (λ x. x.started) (only_advances k r h.0))
      (ap (λ x. x.scanner_id) (only_advances k r h.0) ∙ e)

-- If all answers that a new scanner got so far, one at least, have an error code, its next request
-- names neither a bucket nor a scanner, so the scan cannot be opened any more.
pub scan_request_unopened :
    (partition_id : Option ℤ) (bucket_id : ℤ) (limit : Option ℤ) (batch_size table_id : ℤ)
    (r : ScanKvResponse) (rs : List ScanKvResponse)
    → AllHaveErrorCodes (r ∷ rs)
    → ((scan_request
          (answered_by (new_kv_scanner partition_id bucket_id limit batch_size) (r ∷ rs))
          table_id).bucket_scan_req
        ≡ none)
      × ((scan_request
            (answered_by (new_kv_scanner partition_id bucket_id limit batch_size) (r ∷ rs))
            table_id).scanner_id
          ≡ [])
unfolding scan_request new_kv_scanner
scan_request_unopened partition_id bucket_id limit batch_size table_id r rs h =
    let fresh = new_kv_scanner partition_id bucket_id limit batch_size in
    let first = only_advances fresh r h.0 in
    let (started, unnamed) =
      nameless (take_answer fresh r).0 rs h.1 (ap (λ x. x.started) first ∙ unfold advance in refl)
        (ap (λ x. x.scanner_id) first ∙ unfold advance in refl) in
    (rw started refl, rw started (rw unnamed refl))
