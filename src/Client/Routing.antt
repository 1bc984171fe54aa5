-- ===== src/Client/Routing.antt =====
-- client/client.go: what Route answers behind a metadata response.
use fluss_go_client.Prelude.{
  ◌≡◌, refl, ap, sym, ◌∙◌, Bool, true, false, Option, none, some, if◌then◌else◌, List, [], ◌∷◌,
  ◌++◌,
}
use fluss_go_client.Prelude.Int.{ℤ}
use fluss_go_client.Result.{Result, ok, err, panic}
use fluss_go_client.Metadata.Cache.{
  TableInfo, BucketRoute, Cache, set_table, set_coordinator, upsert_server, set_route, route,
}
use fluss_go_client.Metadata.Cache.Routes.{is_for, route-set_route}
use fluss_go_client.Client.{
  PbServerNode, PbTableMetadata, PbPartitionMetadata, MetadataResponse, Error, parse_server_node,
  parse_table_metadata, parse_partition_metadata, with_parsed, set_routes, upsert_servers,
  ingest_coordinator, ingest_tables, ingest_partitions, then_partitions, ingest_metadata,
}

-- The routes of a response, in its order.
abbrev routes_in : Result Error (List BucketRoute) → List BucketRoute
routes_in (ok rs) = rs
routes_in (err e) = []
routes_in panic = []

abbrev table_routes_in : Result Error (TableInfo × List BucketRoute) → List BucketRoute
table_routes_in (ok (info, rs)) = rs
table_routes_in (err e) = []
table_routes_in panic = []

unfoldable pub table_routes : List PbTableMetadata → List BucketRoute
table_routes [] = []
table_routes (t ∷ ts) = table_routes_in (parse_table_metadata t) ++ table_routes ts

unfoldable pub partition_routes : List PbPartitionMetadata → List BucketRoute
partition_routes [] = []
partition_routes (p ∷ ps) = routes_in (parse_partition_metadata p) ++ partition_routes ps

abbrev pub or_else : Option BucketRoute → Option BucketRoute → Option BucketRoute
or_else (some r) old = some r
or_else none old = old

panic_no_ok : ◌≡◌ {A = Result Error Unit} panic (ok tt) → ⊥
panic_no_ok e = cc

err_no_ok : (x : Error) → ◌≡◌ {A = Result Error Unit} (err x) (ok tt) → ⊥
err_no_ok x e = cc

module _ (t p : ℤ) (h : Bool) (b : ℤ) where
  -- The last route for a bucket.
  unfoldable pub last_route : List BucketRoute → Option BucketRoute
  last_route [] = none
  last_route (r ∷ rs) = or_else (last_route rs) (if is_for r t p h b then some r else none)

  replaced :
      (o : Option BucketRoute) (test : Bool) (r : BucketRoute) (old : Option BucketRoute)
      → or_else o (if test then some r else old)
        ≡ or_else (or_else o (if test then some r else none)) old
  replaced (some x) test r old = refl
  replaced none true r old = refl
  replaced none false r old = refl

  route-set_routes :
      (rs : List BucketRoute) (c : Cache)
      → route (set_routes rs c) t p h b ≡ or_else (last_route rs) (route c t p h b)
  unfolding set_routes last_route
  route-set_routes [] c = refl
  route-set_routes (r ∷ rs) c =
      route-set_routes rs (set_route r c)
      ∙ rw (route-set_route c r t p h b)
          (replaced (last_route rs) (is_for r t p h b) r (route c t p h b))

  or_else_assoc : (x y z : Option BucketRoute) → or_else x (or_else y z) ≡ or_else (or_else x y) z
  or_else_assoc (some r) y z = refl
  or_else_assoc none y z = refl

  last_route-append :
      (xs ys : List BucketRoute) → last_route (xs ++ ys) ≡ or_else (last_route ys) (last_route xs)
  unfolding last_route
  last_route-append [] ys = last (last_route ys)
    where
      last : (o : Option BucketRoute) → o ≡ or_else o none
      last none = refl
      last (some r) = refl
  last_route-append (r ∷ xs) ys = rw (last_route-append xs ys) (
      sym
        (or_else_assoc (last_route ys) (last_route xs) (if is_for r t p h b then some r else none)))

  parsed :
      {A : Type 0} (c c' : Cache) (m : Result Error A) (next : A → Cache × Result Error Unit)
      → with_parsed c m next ≡ (c', ok tt)
      → (a : A) × (m ≡ ok a) × (next a ≡ (c', ok tt))
  parsed c c' panic next e = absurd (panic_no_ok (ap (λ x. x.1) e))
  parsed c c' (err x) next e = absurd (err_no_ok x (ap (λ y. y.1) e))
  parsed c c' (ok a) next e = (a, refl, e)

  route-ingest_partitions :
      (ps : List PbPartitionMetadata) (c c' : Cache)
      → ingest_partitions ps c ≡ (c', ok tt)
      → route c' t p h b ≡ or_else (last_route (partition_routes ps)) (route c t p h b)
  unfolding ingest_partitions partition_routes last_route
  route-ingest_partitions [] c c' e = ap (λ x. route (x.0) t p h b) (sym e)
  route-ingest_partitions (q ∷ ps) c c' e =
      let (rs, e1, e2) = parsed c c' (parse_partition_metadata q) _ e in
      route-ingest_partitions ps (set_routes rs c) c' e2
      ∙ rw (route-set_routes rs c) (
          rw e1 (
            rw (last_route-append rs (partition_routes ps))
              (or_else_assoc (last_route (partition_routes ps)) (last_route rs) (route c t p h b))))

  route-ingest_tables :
      (ts : List PbTableMetadata) (c c' : Cache)
      → ingest_tables ts c ≡ (c', ok tt)
      → route c' t p h b ≡ or_else (last_route (table_routes ts)) (route c t p h b)
  unfolding ingest_tables table_routes last_route
  route-ingest_tables [] c c' e = ap (λ x. route (x.0) t p h b) (sym e)
  route-ingest_tables (q ∷ ts) c c' e =
      let (pr, e1, e2) = parsed c c' (parse_table_metadata q) _ e in
      let same : route (set_table (pr.0) c) t p h b ≡ route c t p h b =
        unfold route set_table in refl in
      route-ingest_tables ts (set_routes (pr.1) (set_table (pr.0) c)) c' e2
      ∙ rw (route-set_routes (pr.1) (set_table (pr.0) c)) (
          rw same (
            rw e1 (
              rw (last_route-append (pr.1) (table_routes ts)) (
                or_else_assoc (last_route (table_routes ts)) (last_route (pr.1))
                  (route c t p h b)))))

  route-upsert_servers :
      (ns : List PbServerNode) (c : Cache) → route (upsert_servers ns c) t p h b ≡ route c t p h b
  unfolding upsert_servers
  route-upsert_servers [] c = refl
  route-upsert_servers (n ∷ ns) c =
      route-upsert_servers ns (upsert_server (parse_server_node n) c)
      ∙ unfold route upsert_server in refl

  route-ingest_coordinator :
      (n : Option PbServerNode) (c : Cache)
      → route (ingest_coordinator n c) t p h b ≡ route c t p h b
  route-ingest_coordinator none c = refl
  route-ingest_coordinator (some n) c = unfold route set_coordinator in refl

  with_partitions :
      (ps : List PbPartitionMetadata) (done : Cache × Result Error Unit) (c' : Cache)
      → then_partitions ps done ≡ (c', ok tt)
      → (done.1 ≡ ok tt) × (ingest_partitions ps (done.0) ≡ (c', ok tt))
  with_partitions ps (c, panic) c' e = absurd (panic_no_ok (ap (λ x. x.1) e))
  with_partitions ps (c, err x) c' e = absurd (err_no_ok x (ap (λ y. y.1) e))
  with_partitions ps (c, ok u) c' e = (refl, e)

  -- If ingestMetadata ends without an error, Route then gives for a bucket the last route to it in the
  -- response, those of the tables before those of the partitions, and where there is none what it gave
  -- before.
  pub route-ingest_metadata :
      (resp : MetadataResponse) (c c' : Cache)
      → ingest_metadata resp c ≡ (c', ok tt)
      → route c' t p h b
        ≡ or_else
            (last_route
              (table_routes resp.table_metadata ++ partition_routes resp.partition_metadata))
            (route c t p h b)
  unfolding ingest_metadata
  route-ingest_metadata resp c c' e =
      let start =
        upsert_servers resp.tablet_servers (ingest_coordinator resp.coordinator_server c) in
      let tables = ingest_tables resp.table_metadata start in
      let (e1, e2) = with_partitions resp.partition_metadata tables c' e in
      let before =
        route-upsert_servers resp.tablet_servers (ingest_coordinator resp.coordinator_server c)
        ∙ route-ingest_coordinator resp.coordinator_server c in
      let pair : tables ≡ (tables.0, ok tt) = λ i. (tables.0, e1 i) in
      let from_tables = table_routes resp.table_metadata in
      let from_partitions = partition_routes resp.partition_metadata in
      let tabled : route (tables.0) t p h b ≡ or_else (last_route from_tables) (route c t p h b) =
        route-ingest_tables resp.table_metadata start (tables.0) pair
        ∙ ap (λ o. or_else (last_route from_tables) o) before in
      route-ingest_partitions resp.partition_metadata (tables.0) c' e2
      ∙ rw tabled (
          rw (last_route-append from_tables from_partitions)
            (or_else_assoc (last_route from_partitions) (last_route from_tables) (route c t p h b)))
