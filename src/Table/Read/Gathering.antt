-- ===== src/Table/Read/Gathering.antt =====
-- client/table.go: the reads by leaders return the answers of all leaders, or nothing.
use fluss_go_client.Prelude.{◌≡◌, refl, ap, sym, Bool, Option, List, [], ◌∷◌, ◌++◌}
use fluss_go_client.Prelude.Int.{ℤ}
use fluss_go_client.Prelude.Maps.{find}
use fluss_go_client.Result.{Result, ok, err, panic, ◌>>=◌, ok_injective}
use fluss_go_client.Bytes.{Bytes}
use fluss_go_client.Metadata.Cache.{TablePath, TableInfo, Cache}
use fluss_go_client.Table.Retry.{GoError}
use fluss_go_client.Table.Send.{GroupsOf, Net}
use fluss_go_client.Table.Send.Routes.{ensure_table_info, group_by_leader}
use fluss_go_client.Table.Send.Groups.{RoutedBy, items_at, items_of, went_on, group_by_leader_lem}
use fluss_go_client.Table.Read.{LookupBucketRequest, LookupBucketValues, parse_lookup_results}
use fluss_go_client.Table.Read.Calls.{Reads, ahead, gather, read_leaders, invoke_lookup, lookup}

module _ {W A B Resp : Type 0} (invoke : W → Bytes → List A → W × Result GoError Resp)
    (parse : Resp → Result GoError (List B)) where
  -- Requests to leaders that all answer without an error, one after the other, and all that they gave.
  pub data Gathered : W → GroupsOf A → List B → W → Type 0 where
    stop : (w : W) → Gathered w [] [] w
    next :
        (w w1 w2 : W) (addr : Bytes) (items : List A) (answer : Result GoError Resp)
        (results more : List B) (groups : GroupsOf A)
        → invoke w addr items ≡ (w1, answer)
        → answer >>= parse ≡ ok results
        → Gathered w1 groups more w2
        → Gathered w ((addr, items) ∷ groups) (results ++ more) w2

  more_behind :
      (w' : W) (results out : List B) (rest : W × Result GoError (List B))
      → ahead results rest ≡ (w', ok out)
      → (more : List B) × (rest ≡ (w', ok more)) × (results ++ more ≡ out)
  more_behind w' results out (w, panic) e = absurd (cc)
  more_behind w' results out (w, err x) e = absurd (cc)
  more_behind w' results out (w, ok more) e =
      (more, λ i. ((e i).0, ok more), ok_injective (ap (λ x. x.1) e))

  pub gather-Gathered :
      (w w' : W) (groups : GroupsOf A) (out : List B)
      → gather invoke parse w groups ≡ (w', ok out)
      → Gathered w groups out w'
  unfolding gather
  gather-Gathered w w' [] out e =
      let here : w ≡ w' = ap (λ x. x.0) e in
      let nothing : [] ≡ out = ok_injective (ap (λ x. x.1) e) in
      rw here (rw (sym nothing) (stop w'))
  gather-Gathered w w' ((addr, items) ∷ groups) out e =
      let sent = invoke w addr items in
      let (results, e1, e2) = went_on (sent.0) w' (sent.1 >>= parse) _ out e in
      let (more, e3, e4) = more_behind w' results out (gather invoke parse (sent.0) groups) e2 in
      rw (sym e4) (
        next w (sent.0) w' addr items (sent.1) results more groups refl e1
          (gather-Gathered (sent.0) w' groups more e3))

  -- An error of one leader, or in its answer, drops the answers of those before it.
  pub gather_loses :
      (w w1 w2 : W) (front back : GroupsOf A) (out : List B) (addr : Bytes) (items : List A)
      (answer : Result GoError Resp) (e : GoError)
      → Gathered w front out w1
      → invoke w1 addr items ≡ (w2, answer)
      → answer >>= parse ≡ err e
      → gather invoke parse w (front ++ ((addr, items) ∷ back)) ≡ (w2, err e)
  unfolding gather
  gather_loses _ _ w2 _ back _ addr items answer e (stop w) f g = rw f (rw g refl)
  gather_loses _ _ w2 _ back _ addr items answer e
        (next w w1 w3 a xs sent results more groups f1 f2 rest) f g =
      rw f1 (rw f2 (rw (gather_loses w1 w3 w2 groups back more addr items answer e rest f g) refl))

module _ {W : Type 0} (net : Net W) (endpoint : Bytes) (path : TablePath) where
  -- What a read by leaders has done when it returns results.
  pub record HasRead {A B Resp : Type 0} (partition_of : A → Option ℤ) (bucket_of : A → ℤ)
      (walk : GroupsOf A → GroupsOf A) (invoke : ℤ → W → Bytes → List A → W × Result GoError Resp)
      (parse : Resp → Result GoError (List B)) (s : W × Cache) (reqs : List A) (out : List B)
      (s' : W × Cache) : Type 0 where
    pub info : TableInfo
    pub opened : W × Cache
    pub routed_to : W × Cache
    pub addrs : List Bytes
    pub grouped : GroupsOf A
    pub found : ensure_table_info net endpoint path s ≡ (opened, ok info)
    pub routed :
        RoutedBy net endpoint path info.id partition_of bucket_of opened reqs addrs routed_to
    pub groups : (a : Bytes) → items_of grouped a ≡ items_at a addrs reqs
    pub answered : Gathered (invoke info.id) parse (routed_to.0) (walk grouped) out (s'.0)
    pub kept : routed_to.1 ≡ s'.1

  pub read_leaders-HasRead :
      {A B Resp : Type 0} (partition_of : A → Option ℤ) (bucket_of : A → ℤ)
      (walk : GroupsOf A → GroupsOf A) (invoke : ℤ → W → Bytes → List A → W × Result GoError Resp)
      (parse : Resp → Result GoError (List B)) (s s' : W × Cache) (reqs : List A) (out : List B)
      → read_leaders net endpoint path partition_of bucket_of walk invoke parse s reqs
        ≡ (s', ok out)
      → HasRead partition_of bucket_of walk invoke parse s reqs out s'
  unfolding read_leaders
  read_leaders-HasRead partition_of bucket_of walk invoke parse s s' reqs out e =
      let first = ensure_table_info net endpoint path s in
      let (info, e1, e2) = went_on (first.0) s' (first.1) _ out e in
      let second =
        group_by_leader net endpoint path partition_of bucket_of (first.0) info.id [] reqs in
      let (grouped, e3, e4) = went_on (second.0) s' (second.1) _ out e2 in
      let (addrs, routed, groups) =
        group_by_leader_lem net endpoint path info.id partition_of bucket_of (first.0) (second.0) []
          grouped reqs (λ i. (second.0, e3 i)) in
      let sent = gather (invoke info.id) parse (second.0.0) (walk grouped) in
      record {
        info = info;
        opened = first.0;
        routed_to = second.0;
        addrs = addrs;
        grouped = grouped;
        found = λ i. (first.0, e1 i);
        routed = routed;
        groups = unfold find in groups;
        answered =
            gather-Gathered (invoke info.id) parse (second.0.0) (s'.0) (walk grouped) out
              (λ i. ((e4 i).0.0, (e4 i).1));
        kept = λ i. (e4 i).0.1;
      }

  -- If Lookup returns values, the table was found, each request went to the leader that routeFor gave
  -- for its bucket, and the values are those read from the answers of all leaders in the walk over the
  -- groups, in its order.
  pub lookup-HasRead :
      (calls : Reads W) (s s' : W × Cache) (reqs : List LookupBucketRequest) (insert : Option Bool)
      (acks timeout_ms : Option ℤ) (out : List LookupBucketValues)
      → lookup net endpoint path calls s reqs insert acks timeout_ms ≡ (s', ok out)
      → HasRead
          (λ r. r.partition_id)
          (λ r. r.bucket_id)
          calls.walk_lookups
          (invoke_lookup net endpoint path calls insert acks timeout_ms)
          parse_lookup_results
          s
          reqs
          out
          s'
  unfolding lookup
  lookup-HasRead calls s s' reqs insert acks timeout_ms out e =
      read_leaders-HasRead (λ r. r.partition_id) (λ r. r.bucket_id) calls.walk_lookups
        (invoke_lookup net endpoint path calls insert acks timeout_ms) parse_lookup_results s s'
        reqs out e
