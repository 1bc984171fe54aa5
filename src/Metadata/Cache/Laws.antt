-- ===== src/Metadata/Cache/Laws.antt =====
-- internal/metadata/cache.go: an invariant of the cache under its updates.
use fluss_go_client.Prelude.{
  ◌≡◌, refl, sym, ap, ◌∙◌, Bool, true, Bool-cases, and_parts, some, List, [], ◌∷◌, inl, inr,
}
use fluss_go_client.Prelude.Int.{ℤ, eq_ℤ, eq_ℤ_sound, eq_ℤ_refl}
use fluss_go_client.Prelude.Maps.{find, put, find-put, Keyed, put-Keyed}
use fluss_go_client.Bytes.Equal.{bytes_eq, bytes_eq_refl, bytes_eq_sound}
use fluss_go_client.Metadata.Cache.{
  TablePath, ServerNode, TableInfo, BucketRoute, Cache, new_cache, path_eq, route_key,
  upsert_server, set_coordinator, server, set_table, table, set_route, route,
}
use fluss_go_client.Metadata.Cache.Keys.{key_of, route_key_injective}

pub path_eq_refl : (a : TablePath) → path_eq a a ≡ true
unfolding path_eq
path_eq_refl a = rw (bytes_eq_refl a.database_name) (bytes_eq_refl a.table_name)

pub path_eq_sound : (a b : TablePath) → path_eq a b ≡ true → a ≡ b
unfolding path_eq
path_eq_sound a b h =
    let (p, q) = and_parts (bytes_eq a.database_name b.database_name) _ h in
    let d = bytes_eq_sound a.database_name b.database_name p in
    let t = bytes_eq_sound a.table_name b.table_name q in
    λ i. record { database_name = d i; table_name = t i }

-- The methods of a cache that change it.
pub data Update : Type 0 where
  coordinator_is server_is : ServerNode → Update
  table_is : TableInfo → Update
  route_is : BucketRoute → Update

abbrev pub apply : Update → Cache → Cache
apply (Update.coordinator_is node) c = set_coordinator node c
apply (Update.server_is node) c = upsert_server node c
apply (Update.table_is info) c = set_table info c
apply (Update.route_is r) c = set_route r c

-- A new cache after updates, the last one first.
abbrev pub run : List Update → Cache
run [] = new_cache
run (u ∷ us) = apply u (run us)

pub record IsConsistent (c : Cache) : Type 0 where
  pub servers : (id : ℤ) (n : ServerNode) → server c id ≡ some n → n.id ≡ id
  pub tables : (path : TablePath) (i : TableInfo) → table c path ≡ some i → i.path ≡ path
  pub routes :
      (t p : ℤ) (h : Bool) (b : ℤ) (r : BucketRoute)
      → route c t p h b ≡ some r
      → (r.table_id ≡ t)
        × (r.bucket_id ≡ b)
        × (r.has_partition ≡ h)
        × (h ≡ true → r.partition_id ≡ p)
  pub coordinator :
      (n : ServerNode) → c.coordinator ≡ some n → (m : ServerNode) × (server c n.id ≡ some m)

-- The maps behind it.
record AllKeyed (c : Cache) : Type 0 where
  servers : Keyed eq_ℤ (λ n. n.id) c.servers
  tables : Keyed path_eq (λ i. i.path) c.tables
  routes : Keyed bytes_eq key_of c.routes

server_put :
    (m : List (ℤ × ServerNode)) (n : ServerNode)
    → Keyed eq_ℤ (λ n. n.id) m
    → Keyed eq_ℤ (λ n. n.id) (put eq_ℤ m n.id n)
server_put m n h = put-Keyed eq_ℤ eq_ℤ_sound eq_ℤ_refl (λ n. n.id) m n h

run-AllKeyed : (us : List Update) → AllKeyed (run us)
unfolding set_coordinator upsert_server set_table set_route find
run-AllKeyed [] = record {
  servers = λ k v e. absurd (cc);
  tables = λ k v e. absurd (cc);
  routes = λ k v e. absurd (cc);
}
run-AllKeyed (Update.coordinator_is node ∷ us) =
    let k = run-AllKeyed us in
    record {
      servers = server_put (run us).servers node k.servers;
      tables = k.tables;
      routes = k.routes;
    }
run-AllKeyed (Update.server_is node ∷ us) =
    let k = run-AllKeyed us in
    record {
      servers = server_put (run us).servers node k.servers;
      tables = k.tables;
      routes = k.routes;
    }
run-AllKeyed (Update.table_is info ∷ us) =
    let k = run-AllKeyed us in
    record {
      servers = k.servers;
      tables =
          put-Keyed path_eq path_eq_sound path_eq_refl (λ i. i.path) (run us).tables info k.tables;
      routes = k.routes;
    }
run-AllKeyed (Update.route_is r ∷ us) =
    let k = run-AllKeyed us in
    record {
      servers = k.servers;
      tables = k.tables;
      routes = put-Keyed bytes_eq bytes_eq_sound bytes_eq_refl key_of (run us).routes r k.routes;
    }

-- A server that was known stays known, under its newest entry.
server_kept :
    (m : List (ℤ × ServerNode)) (n : ServerNode) (id : ℤ)
    → ((o : ServerNode) × (find eq_ℤ m id ≡ some o))
    → (o : ServerNode) × (find eq_ℤ (put eq_ℤ m n.id n) id ≡ some o)
server_kept m n id (o, e) = elim (Bool-cases (eq_ℤ n.id id)) [
  | inl t ↦ (n, find-put eq_ℤ eq_ℤ_sound eq_ℤ_refl m n.id n id ∙ rw t refl)
  | inr t ↦ (o, find-put eq_ℤ eq_ℤ_sound eq_ℤ_refl m n.id n id ∙ rw t e)
]

run-coordinator :
    (us : List Update) (n : ServerNode)
    → (run us).coordinator ≡ some n
    → (m : ServerNode) × (find eq_ℤ (run us).servers n.id ≡ some m)
unfolding set_coordinator upsert_server set_table set_route
run-coordinator [] n e = absurd (cc)
run-coordinator (Update.coordinator_is node ∷ us) n e =
    let same : node ≡ n = cc in
    (
      node,
      find-put eq_ℤ eq_ℤ_sound eq_ℤ_refl (run us).servers node.id node n.id
          ∙ rw (ap (λ x. eq_ℤ node.id x.id) (sym same) ∙ eq_ℤ_refl node.id) refl,
    )
run-coordinator (Update.server_is node ∷ us) n e =
    server_kept (run us).servers node n.id (run-coordinator us n e)
run-coordinator (Update.table_is info ∷ us) n e = run-coordinator us n e
run-coordinator (Update.route_is r ∷ us) n e = run-coordinator us n e

-- After any sequence of the cache's updates, Server, Table and Route answer only with an entry for
-- what was asked, and the coordinator is one of the known servers.
pub run-IsConsistent : (us : List Update) → IsConsistent (run us)
unfolding server table route
run-IsConsistent us =
    let k = run-AllKeyed us in
    record {
      servers = λ id n e. k.servers id n e;
      tables = λ path i e. k.tables path i e;
      routes = λ t p h b r e.
          let (x, y, z, w) =
            route_key_injective r.table_id t r.partition_id p r.has_partition h r.bucket_id b
              (k.routes (route_key t p h b) r e) in
          (x, y, z, λ a. w (z ∙ a));
      coordinator = λ n e. run-coordinator us n e;
    }
