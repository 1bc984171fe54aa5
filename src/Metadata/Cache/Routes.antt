-- ===== src/Metadata/Cache/Routes.antt =====
-- internal/metadata/cache.go: SetRoute and Route together.
use fluss_go_client.Prelude.{
  ◌≡◌, refl, sym, ap, ◌∙◌, Bool, true, false, not, ◌&&◌, if◌then◌else◌, Bool-cases, and_parts, some,
  arith, ◌∷◌, ◌++◌, inl, inr,
}
use fluss_go_client.Prelude.Int.{ℤ, eq_ℤ, eq_ℤ_sound, eq_ℤ_refl}
use fluss_go_client.Prelude.Maps.{find, find-put}
use fluss_go_client.Bytes.Equal.{bytes_eq, bytes_eq_refl, bytes_eq_sound}
use fluss_go_client.Format.{format_d}
use fluss_go_client.Metadata.Cache.{BucketRoute, Cache, partition_part, route_key, set_route, route}
use fluss_go_client.Metadata.Cache.Keys.{key_of, route_key_injective}

-- Whether a route is for the bucket asked for: a partition id counts only where there is a partition.
abbrev pub is_for : BucketRoute → ℤ → ℤ → Bool → ℤ → Bool
is_for r t p h b =
    eq_ℤ r.table_id t
    && (eq_ℤ r.bucket_id b
        && (if h then r.has_partition && eq_ℤ r.partition_id p else not r.has_partition))

is_for_parts :
    (r : BucketRoute) (t p : ℤ) (h : Bool) (b : ℤ)
    → is_for r t p h b ≡ true
    → (eq_ℤ r.table_id t ≡ true)
      × (eq_ℤ r.bucket_id b ≡ true)
      × ((if h then r.has_partition && eq_ℤ r.partition_id p else not r.has_partition) ≡ true)
is_for_parts r t p h b e =
    let (x, rest) = and_parts (eq_ℤ r.table_id t) _ e in
    let (y, z) = and_parts (eq_ℤ r.bucket_id b) _ rest in (x, y, z)

part_test :
    (q p : ℤ) (k h : Bool)
    → (if h then k && eq_ℤ q p else not k) ≡ true
    → partition_part q k ≡ partition_part p h
part_test q p true true e = ap format_d (eq_ℤ_sound q p e)
part_test q p true false e = absurd (cc)
part_test q p false true e = absurd (cc)
part_test q p false false e = refl

is_for_key :
    (r : BucketRoute) (t p : ℤ) (h : Bool) (b : ℤ)
    → is_for r t p h b ≡ true
    → key_of r ≡ route_key t p h b
unfolding route_key
is_for_key r t p h b e =
    let (x, y, z) = is_for_parts r t p h b e in
    let ts = eq_ℤ_sound r.table_id t x in
    let bs = eq_ℤ_sound r.bucket_id b y in
    let ps = part_test r.partition_id p r.has_partition h z in
    λ i. format_d (ts i) ++ (47 ∷ (ps i ++ (47 ∷ format_d (bs i))))

for_part :
    (q p : ℤ) (k h : Bool)
    → k ≡ h
    → (k ≡ true → q ≡ p)
    → (if h then k && eq_ℤ q p else not k) ≡ true
for_part q p true true e f = ap (λ x. eq_ℤ q x) (sym (f refl)) ∙ eq_ℤ_refl q
for_part q p true false e f = absurd (cc)
for_part q p false true e f = absurd (cc)
for_part q p false false e f = refl

key_is_for :
    (r : BucketRoute) (t p : ℤ) (h : Bool) (b : ℤ)
    → key_of r ≡ route_key t p h b
    → is_for r t p h b ≡ true
key_is_for r t p h b e =
    let (x, y, z, w) =
      route_key_injective r.table_id t r.partition_id p r.has_partition h r.bucket_id b e in
    let ts = ap (λ v. eq_ℤ r.table_id v) (sym x) ∙ eq_ℤ_refl r.table_id in
    let bs = ap (λ v. eq_ℤ r.bucket_id v) (sym y) ∙ eq_ℤ_refl r.bucket_id in
    rw ts (rw bs (for_part r.partition_id p r.has_partition h z w))

key_test :
    (r : BucketRoute) (t p : ℤ) (h : Bool) (b : ℤ)
    → bytes_eq (key_of r) (route_key t p h b) ≡ is_for r t p h b
key_test r t p h b = elim (Bool-cases (bytes_eq (key_of r) (route_key t p h b))) [
  | inl e ↦ e ∙ sym (key_is_for r t p h b (bytes_eq_sound _ _ e))
  | inr e ↦ elim (Bool-cases (is_for r t p h b)) [
    | inl f ↦ absurd (
        ground (
          arith,
          ap (λ k. bytes_eq (key_of r) k) (is_for_key r t p h b f),
          bytes_eq_refl (key_of r),
        ))
    | inr f ↦ e ∙ sym f
  ]
]

-- After SetRoute, Route answers that route for its own bucket (the partition id counts only where
-- there is a partition) and answers as before for every other.
pub route-set_route :
    (c : Cache) (r : BucketRoute) (t p : ℤ) (h : Bool) (b : ℤ)
    → route (set_route r c) t p h b ≡ (if is_for r t p h b then some r else route c t p h b)
unfolding route set_route
route-set_route c r t p h b =
    find-put bytes_eq bytes_eq_sound bytes_eq_refl c.routes (key_of r) r (route_key t p h b)
    ∙ ap (λ x. if x then some r else find bytes_eq c.routes (route_key t p h b))
        (key_test r t p h b)
