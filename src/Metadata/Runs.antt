-- ===== src/Metadata/Runs.antt =====
-- The metadata cache at concrete inputs.
use fluss_go_client.Prelude.{◌≡◌, refl, true, false, some, [], ◌∷◌}
use fluss_go_client.Prelude.Int.{pos, negsuc}
use fluss_go_client.Format.{format_d, digits_loop}
use fluss_go_client.Metadata.Cache.{
  ServerNode, BucketRoute, new_cache, address, route_key, set_route, route,
}
use fluss_go_client.Metadata.Cache.Routes.{route-set_route}

abbrev leader : ServerNode
leader = record { id = pos 2; host = 104 ∷ []; port = pos 9123; listeners = []; rack = [] }

abbrev bucket : BucketRoute
bucket = record {
  table_id = pos 5;
  partition_id = pos 0;
  has_partition = false;
  bucket_id = pos 12;
  leader_id = pos 2;
  leader_epoch = pos 0;
  replicas = pos 2 ∷ [];
}

address_test : address leader ≡ 104 ∷ 58 ∷ 57 ∷ 49 ∷ 50 ∷ 51 ∷ []
unfolding address format_d digits_loop
address_test = refl

route_key_test : route_key (pos 5) (negsuc 0) true (pos 12) ≡ 53 ∷ 47 ∷ 45 ∷ 49 ∷ 47 ∷ 49 ∷ 50 ∷ []
unfolding route_key format_d digits_loop
route_key_test = refl

same_key : route_key (pos 5) (pos 0) false (pos 12) ≡ route_key (pos 5) (pos 8) false (pos 12)
unfolding route_key
same_key = refl

route-set_route_example :
    route (set_route bucket new_cache) (pos 5) (pos 8) false (pos 12) ≡ some bucket
route-set_route_example = route-set_route new_cache bucket (pos 5) (pos 8) false (pos 12)
