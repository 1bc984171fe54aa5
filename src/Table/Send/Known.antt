-- ===== src/Table/Send/Known.antt =====
-- The info of a table that client/table.go has once found.
use fluss_go_client.Prelude.{◌≡◌, refl, ap, sym, ◌∙◌, Option, none, some}
use fluss_go_client.Result.{Result, ok, err, panic, ok_injective}
use fluss_go_client.Bytes.{Bytes}
use fluss_go_client.Prelude.Maps.{find-put}
use fluss_go_client.Metadata.Cache.{TablePath, TableInfo, Cache, path_eq, set_table, table}
use fluss_go_client.Metadata.Cache.Laws.{path_eq_refl, path_eq_sound}
use fluss_go_client.Admin.{invoke_any, keep_info, table_info, get_table_info}
use fluss_go_client.Table.Retry.{GoError}
use fluss_go_client.Table.Send.{Net, GetTableInfoResponse}
use fluss_go_client.Table.Send.Routes.{ensure_table_info, without_dir}

table-set_table : (c : Cache) (info : TableInfo) → table (set_table info c) info.path ≡ some info
unfolding table set_table
table-set_table c info =
    find-put path_eq path_eq_sound path_eq_refl c.tables info.path info info.path
    ∙ rw (path_eq_refl info.path) refl

module _ {W : Type 0} (net : Net W) (endpoint : Bytes) (path : TablePath) where
  -- Where the cache has the table, nothing is called.
  ensure_table_info_held :
      (w : W) (c : Cache) (held : TableInfo)
      → table c path ≡ some held
      → ensure_table_info net endpoint path (w, c) ≡ ((w, c), ok (without_dir held))
  unfolding ensure_table_info
  ensure_table_info_held w c held e = rw (e, ensure_table_info) refl

  ensure_table_info_missing :
      (w : W) (c : Cache)
      → table c path ≡ none
      → ensure_table_info net endpoint path (w, c)
        ≡ keep_info net endpoint path (invoke_any net endpoint net.get_table_info (w, c) path)
  unfolding ensure_table_info get_table_info
  ensure_table_info_missing w c e = rw (e, ensure_table_info) refl

  -- What GetTableInfo returned is what the cache then holds.
  keep_info_holds :
      (a : (W × Cache) × Result GoError GetTableInfoResponse) (t : W × Cache) (info : TableInfo)
      → keep_info net endpoint path a ≡ (t, ok info)
      → (table (t.1) path ≡ some info) × (without_dir info ≡ info)
  keep_info_holds ((w, c), ok r) t info e =
      let same_info : table_info net endpoint path r ≡ info = ok_injective (ap (λ x. x.1) e) in
      let same_cache : set_table (table_info net endpoint path r) c ≡ t.1 = ap (λ x. x.0.1) e in
      (
        rw (sym same_cache, sym same_info) (table-set_table c (table_info net endpoint path r)),
        rw (sym same_info) refl,
      )
  keep_info_holds ((w, c), err x) t info e = cc
  keep_info_holds ((w, c), panic) t info e = cc

module _ {V W : Type 0} (net : Net W) (endpoint : Bytes) (path : TablePath) (later : Net V)
    (later_endpoint : Bytes) (w : V) where
  -- Once ensureTableInfo has given an info of a table, it gives the same info on the cache that it left,
  -- whatever servers there are then, and calls none of them.
  pub ensure_table_info_again :
      (s t : W × Cache) (info : TableInfo)
      → ensure_table_info net endpoint path s ≡ (t, ok info)
      → ensure_table_info later later_endpoint path (w, t.1) ≡ ((w, t.1), ok info)
  ensure_table_info_again (v, c) t info = answered_from (table c path) refl
    where
      answered_from :
          (found : Option TableInfo)
          → table c path ≡ found
          → ensure_table_info net endpoint path (v, c) ≡ (t, ok info)
          → ensure_table_info later later_endpoint path (w, t.1) ≡ ((w, t.1), ok info)
      answered_from (some held) e h =
          let first = sym (ensure_table_info_held net endpoint path v c held e) ∙ h in
          let same_info : without_dir held ≡ info = ok_injective (ap (λ x. x.1) first) in
          let same_cache : c ≡ t.1 = ap (λ x. x.0.1) first in
          ensure_table_info_held later later_endpoint path w (t.1) held (rw (sym same_cache) e)
          ∙ rw same_info refl
      answered_from none e h =
          let kept =
            keep_info_holds net endpoint path
              (invoke_any net endpoint net.get_table_info (v, c) path) t info
              (sym (ensure_table_info_missing net endpoint path v c e) ∙ h) in
          ensure_table_info_held later later_endpoint path w (t.1) info (kept.0) ∙ rw (kept.1) refl
