-- ===== src/Metadata/Cache/Keys.antt =====
-- internal/metadata/cache.go: routeKey.
use fluss_go_client.Prelude.{ℕ, ◌≡◌, refl, sym, Bool, true, false, arith, [], ◌∷◌, ◌++◌}
use fluss_go_client.Prelude.Int.{ℤ}
use fluss_go_client.Bytes.{Bytes}
use fluss_go_client.Format.Injective.{
  HasNoSlash, format_d-HasNoSlash, format_d_injective, format_d_no_sign,
}
use fluss_go_client.Metadata.Cache.{BucketRoute, partition_part, route_key}

cons_injective : (x y : ℕ) (xs ys : Bytes) → x ∷ xs ≡ y ∷ ys → (x ≡ y) × (xs ≡ ys)
cons_injective x y xs ys e = (cc, cc)

-- What stands in front of the first slash, and what stands behind it.
first_slash :
    (a b r s : Bytes)
    → HasNoSlash a
    → HasNoSlash b
    → a ++ (47 ∷ r) ≡ b ++ (47 ∷ s)
    → (a ≡ b) × (r ≡ s)
first_slash [] [] r s p q e = (refl, (cons_injective 47 47 r s e).1)
first_slash [] (y ∷ b) r s p q e =
    absurd (ground (arith, q.0, (cons_injective 47 y r (b ++ (47 ∷ s)) e).0))
first_slash (x ∷ a) [] r s p q e =
    absurd (ground (arith, p.0, (cons_injective x 47 (a ++ (47 ∷ r)) s e).0))
first_slash (x ∷ a) (y ∷ b) r s p q e =
    let (h, t) = cons_injective x y (a ++ (47 ∷ r)) (b ++ (47 ∷ s)) e in
    let (f, g) = first_slash a b r s p.1 q.1 t in (cc, g)

part-HasNoSlash : (p : ℤ) (h : Bool) → HasNoSlash (partition_part p h)
part-HasNoSlash p true = format_d-HasNoSlash p
part-HasNoSlash p false = (refl, tt)

part_injective :
    (p q : ℤ) (h k : Bool) → partition_part p h ≡ partition_part q k → (h ≡ k) × (h ≡ true → p ≡ q)
part_injective p q true true e = (refl, λ t. format_d_injective p q e)
part_injective p q true false e = absurd (format_d_no_sign p e)
part_injective p q false true e = absurd (format_d_no_sign q (sym e))
part_injective p q false false e = (refl, λ t. cc)

-- Two route keys are equal only for the same table and bucket, both or neither with a partition, and
-- the same partition if there is one.
pub route_key_injective :
    (t u p q : ℤ) (h k : Bool) (b c : ℤ)
    → route_key t p h b ≡ route_key u q k c
    → (t ≡ u) × (b ≡ c) × (h ≡ k) × (h ≡ true → p ≡ q)
unfolding route_key
route_key_injective t u p q h k b c e =
    let (f, g) = first_slash _ _ _ _ (format_d-HasNoSlash t) (format_d-HasNoSlash u) e in
    let (m, n) = first_slash _ _ _ _ (part-HasNoSlash p h) (part-HasNoSlash q k) g in
    let (x, y) = part_injective p q h k m in
    (format_d_injective t u f, format_d_injective b c n, x, y)

abbrev pub key_of : BucketRoute → Bytes
key_of r = route_key r.table_id r.partition_id r.has_partition r.bucket_id
