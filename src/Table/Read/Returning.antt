-- ===== src/Table/Read/Returning.antt =====
-- client/table.go: when Lookup, PrefixLookup and FetchLog return the results of their answers.
use fluss_go_client.Prelude.{◌≡◌, refl, Option, List, []}
use fluss_go_client.Prelude.Int.{ℤ}
use fluss_go_client.Result.{Result, ok}
use fluss_go_client.Bytes.{Bytes}
use fluss_go_client.Metadata.Cache.{TablePath, TableInfo, Cache}
use fluss_go_client.Table.Retry.{GoError}
use fluss_go_client.Table.Send.{GroupsOf, Net}
use fluss_go_client.Table.Send.Routes.{ensure_table_info, group_by_leader}
use fluss_go_client.Table.Read.Calls.{gather, read_leaders}
use fluss_go_client.Table.Read.Gathering.{Gathered, stop, next}

module _ {W A B Resp : Type 0} (invoke : W → Bytes → List A → W × Result GoError Resp)
    (parse : Resp → Result GoError (List B)) where
  pub gather_returns :
      (w w' : W) (groups : GroupsOf A) (out : List B)
      → Gathered invoke parse w groups out w'
      → gather invoke parse w groups ≡ (w', ok out)
  unfolding gather
  gather_returns _ _ _ _ (stop w) = refl
  gather_returns _ _ _ _ (next w w1 w2 addr items answer results more groups sent read rest) =
      rw sent (rw read (rw (gather_returns w1 w2 groups more rest) refl))

module _ {W : Type 0} (net : Net W) (endpoint : Bytes) (path : TablePath) where
  -- The steps that Lookup, PrefixLookup and FetchLogWithOptions share return, if the table is found, the
  -- requests are grouped and each leader in the walk over the groups answers without an error, the
  -- results read from all the answers, in the order of the walk.
  pub read_leaders_returns :
      {A B Resp : Type 0} (partition_of : A → Option ℤ) (bucket_of : A → ℤ)
      (walk : GroupsOf A → GroupsOf A) (invoke : ℤ → W → Bytes → List A → W × Result GoError Resp)
      (parse : Resp → Result GoError (List B)) (s s1 : W × Cache) (w2 w3 : W) (c2 : Cache)
      (reqs : List A) (info : TableInfo) (grouped : GroupsOf A) (out : List B)
      → ensure_table_info net endpoint path s ≡ (s1, ok info)
      → group_by_leader net endpoint path partition_of bucket_of s1 info.id [] reqs
        ≡ ((w2, c2), ok grouped)
      → Gathered (invoke info.id) parse w2 (walk grouped) out w3
      → read_leaders net endpoint path partition_of bucket_of walk invoke parse s reqs
        ≡ ((w3, c2), ok out)
  unfolding read_leaders
  read_leaders_returns partition_of bucket_of walk invoke parse s s1 w2 w3 c2 reqs info grouped out
        found routed gathered =
      rw found (
        rw routed
          (rw (gather_returns (invoke info.id) parse w2 w3 (walk grouped) out gathered) refl))
