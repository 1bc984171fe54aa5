-- ===== src/Client/Ingest.antt =====
-- client/client.go: ingestMetadata changes the cache by the cache's own updates, so the cache stays
-- consistent, also where a response turns out to be bad halfway.
use fluss_go_client.Prelude.{◌≡◌, refl, true, false, Option, none, some, List, [], ◌∷◌}
use fluss_go_client.Prelude.Int.{ℤ, pos}
use fluss_go_client.Result.{Result, ok, err, panic}
use fluss_go_client.Metadata.Cache.{ServerNode, BucketRoute, TableInfo, Cache, new_cache, server}
use fluss_go_client.Metadata.Cache.Laws.{Update, run, IsConsistent, run-IsConsistent}
use fluss_go_client.Client.{with_parsed}
use fluss_go_client.Metadata.Cache.{set_table}
use fluss_go_client.Client.{
  PbServerNode, PbTableMetadata, PbPartitionMetadata, MetadataResponse, Error, parse_server_node,
  parse_table_metadata, parse_partition_metadata, set_routes, upsert_servers, ingest_coordinator,
  ingest_tables, ingest_partitions, then_partitions, ingest_metadata, find_route, leader_of,
  route_for,
}

-- A cache that updates made.
abbrev Updated : Cache → Type 0
Updated c = (us : List Update) × (c ≡ run us)

set_routes-Updated : (rs : List BucketRoute) (c : Cache) → Updated c → Updated (set_routes rs c)
unfolding set_routes
set_routes-Updated [] c h = h
set_routes-Updated (r ∷ rs) c (us, e) = set_routes-Updated rs _ (Update.route_is r ∷ us, rw e refl)

upsert_servers-Updated :
    (ns : List PbServerNode) (c : Cache) → Updated c → Updated (upsert_servers ns c)
unfolding upsert_servers
upsert_servers-Updated [] c h = h
upsert_servers-Updated (n ∷ ns) c (us, e) =
    upsert_servers-Updated ns _ (Update.server_is (parse_server_node n) ∷ us, rw e refl)

ingest_coordinator-Updated :
    (n : Option PbServerNode) (c : Cache) → Updated c → Updated (ingest_coordinator n c)
ingest_coordinator-Updated none c h = h
ingest_coordinator-Updated (some n) c (us, e) =
    (Update.coordinator_is (parse_server_node n) ∷ us, rw e refl)

with_parsed-Updated :
    {A : Type 0} (c : Cache) (m : Result Error A) (next : A → Cache × Result Error Unit)
    → Updated c
    → ((a : A) → Updated (next a).0)
    → Updated (with_parsed c m next).0
with_parsed-Updated c panic next h k = h
with_parsed-Updated c (err e) next h k = h
with_parsed-Updated c (ok a) next h k = k a

ingest_partitions-Updated :
    (ps : List PbPartitionMetadata) (c : Cache) → Updated c → Updated (ingest_partitions ps c).0
unfolding ingest_partitions
ingest_partitions-Updated [] c h = h
ingest_partitions-Updated (p ∷ ps) c h =
    with_parsed-Updated c (parse_partition_metadata p) _ h
      (λ routes. ingest_partitions-Updated ps (set_routes routes c) (set_routes-Updated routes c h))

set_table-Updated : (info : TableInfo) (c : Cache) → Updated c → Updated (set_table info c)
set_table-Updated info c (us, e) = (Update.table_is info ∷ us, rw e refl)

ingest_tables-Updated :
    (ts : List PbTableMetadata) (c : Cache) → Updated c → Updated (ingest_tables ts c).0
unfolding ingest_tables
ingest_tables-Updated [] c h = h
ingest_tables-Updated (t ∷ ts) c h = with_parsed-Updated c (parse_table_metadata t) _ h (λ parsed.
    ingest_tables-Updated ts (set_routes (parsed.1) (set_table (parsed.0) c))
      (set_routes-Updated (parsed.1) _ (set_table-Updated (parsed.0) c h)))

then_partitions-Updated :
    (ps : List PbPartitionMetadata) (done : Cache × Result Error Unit)
    → Updated done.0
    → Updated (then_partitions ps done).0
then_partitions-Updated ps (c, panic) h = h
then_partitions-Updated ps (c, err e) h = h
then_partitions-Updated ps (c, ok u) h = ingest_partitions-Updated ps c h

ingest_metadata-Updated :
    (resp : MetadataResponse) (c : Cache) → Updated c → Updated (ingest_metadata resp c).0
unfolding ingest_metadata
ingest_metadata-Updated resp c h = then_partitions-Updated resp.partition_metadata _ (
    ingest_tables-Updated resp.table_metadata _ (
      upsert_servers-Updated resp.tablet_servers _
        (ingest_coordinator-Updated resp.coordinator_server c h)))

-- The caches of a client: a new one, and one after a response, whether ingestMetadata ends in an error
-- or not.
pub data Ingested : Cache → Type 0 where
  dialled : Ingested new_cache
  refreshed :
      (c : Cache) (resp : MetadataResponse) → Ingested c → Ingested (ingest_metadata resp c).0

Ingested-Updated : (c : Cache) → Ingested c → Updated c
Ingested-Updated _ dialled = ([], refl)
Ingested-Updated _ (refreshed c resp h) = ingest_metadata-Updated resp c (Ingested-Updated c h)

-- After any sequence of metadata responses, also of bad ones that ingestMetadata leaves halfway, the
-- cache of a client answers only with an entry for what was asked, and its coordinator is a known
-- server.
pub Ingested-IsConsistent : (c : Cache) → Ingested c → IsConsistent c
Ingested-IsConsistent c h = let (us, e) = Ingested-Updated c h in rw e (run-IsConsistent us)

-- A route for the bucket asked for.
abbrev pub IsRouteOf : ℤ → Option ℤ → ℤ → BucketRoute → Type 0
IsRouteOf t none b r = (r.table_id ≡ t) × (r.bucket_id ≡ b) × (r.has_partition ≡ false)
IsRouteOf t (some p) b r =
    (r.table_id ≡ t) × (r.bucket_id ≡ b) × (r.has_partition ≡ true) × (r.partition_id ≡ p)

find_route-IsRouteOf :
    (c : Cache) (t : ℤ) (p : Option ℤ) (b : ℤ) (r : BucketRoute)
    → IsConsistent c
    → find_route c t p b ≡ some r
    → IsRouteOf t p b r
find_route-IsRouteOf c t none b r k e =
    let (x, y, z, w) = k.routes t (pos 0) false b r e in (x, y, z)
find_route-IsRouteOf c t (some p) b r k e =
    let (x, y, z, w) = k.routes t p true b r e in (x, y, z, w refl)

from_server :
    (id : ℤ) (s : Option ServerNode) (node : ServerNode)
    → (elim s as (λ x. Result Error ServerNode) [
      | none ↦ err (Error.leader_not_found id)
      | some n ↦ ok n
    ])
      ≡ ok node
    → s ≡ some node
from_server id none node h = cc
from_server id (some n) node h = cc

found_leader :
    (c : Cache) (t b : ℤ) (o : Option BucketRoute) (node : ServerNode)
    → leader_of c t b o ≡ ok node
    → (r : BucketRoute) × (o ≡ some r) × (server c r.leader_id ≡ some node)
found_leader c t b none node h = cc
found_leader c t b (some r) node h =
    (r, refl, from_server r.leader_id (server c r.leader_id) node h)

-- In a cache that metadata responses made, a server that routeFor gives is the leader named by a route
-- that the cache holds for exactly the table, the bucket and the partition asked for.
pub route_for_leads :
    (c : Cache) (t : ℤ) (p : Option ℤ) (b : ℤ) (node : ServerNode)
    → Ingested c
    → route_for c t p b ≡ ok node
    → (r : BucketRoute) × (find_route c t p b ≡ some r)
      × IsRouteOf t p b r
      × (node.id ≡ r.leader_id)
unfolding route_for
route_for_leads c t p b node h e =
    let k = Ingested-IsConsistent c h in
    let (r, found, leader) = found_leader c t b (find_route c t p b) node e in
    (r, found, find_route-IsRouteOf c t p b r k found, k.servers r.leader_id node leader)
