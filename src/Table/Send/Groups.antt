-- ===== src/Table/Send/Groups.antt =====
-- client/table.go: the grouping by leaders, with the refreshes that happen on the way.
use fluss_go_client.Prelude.{
  ◌≡◌, refl, ap, sym, ◌∙◌, Option, Bool-cases, inl, inr, if◌then◌else◌, List, [], ◌∷◌, ◌++◌,
  append-nil, append_assoc,
}
use fluss_go_client.Prelude.Int.{ℤ}
use fluss_go_client.Prelude.Maps.{find, find-put}
use fluss_go_client.Result.{Result, ok, err, panic, ok_injective}
use fluss_go_client.Bytes.{Bytes}
use fluss_go_client.Bytes.Equal.{bytes_eq, bytes_eq_sound, bytes_eq_refl}
use fluss_go_client.Writer.Options.{BucketRecordBatch}
use fluss_go_client.Metadata.Cache.{TablePath, ServerNode, Cache, address}
use fluss_go_client.Table.Send.{on_ok, group_of, add_to_group, Groups, GroupsOf, Net}
use fluss_go_client.Table.Send.Routes.{table_route_for, group_by_leader, group_batches_by_leader}

-- The items of a leader's address, in their order.
unfoldable pub items_at : {A : Type 0} → Bytes → List Bytes → List A → List A
items_at a [] bs = []
items_at a (x ∷ xs) [] = []
items_at a (x ∷ xs) (b ∷ bs) =
    let rest = items_at a xs bs in if bytes_eq x a then b ∷ rest else rest

abbrev pub items_of : {A : Type 0} → GroupsOf A → Bytes → List A
items_of g a = group_of (find bytes_eq g a)

items_of-add_to_group :
    {A : Type 0} (g : GroupsOf A) (x a : Bytes) (b : A)
    → items_of (add_to_group g x b) a
      ≡ (if bytes_eq x a then items_of g a ++ (b ∷ []) else items_of g a)
unfolding add_to_group
items_of-add_to_group g x a b =
    ap group_of (find-put bytes_eq bytes_eq_sound bytes_eq_refl g x (items_of g x ++ (b ∷ [])) a)
    ∙ elim (Bool-cases (bytes_eq x a)) [
      | inl e ↦ rw e (ap (λ y. items_of g y ++ (b ∷ [])) (bytes_eq_sound x a e))
      | inr e ↦ rw e refl
    ]

added :
    {A : Type 0} (g : GroupsOf A) (x a : Bytes) (b : A) (rest : List A)
    → items_of (add_to_group g x b) a ++ rest
      ≡ items_of g a ++ (if bytes_eq x a then b ∷ rest else rest)
added g x a b rest = rw (items_of-add_to_group g x a b) (elim (Bool-cases (bytes_eq x a)) [
  | inl e ↦ rw e (append_assoc (items_of g a) (b ∷ []) rest)
  | inr e ↦ rw e refl
])

panic_no_ok : {E B : Type 0} (y : B) → ◌≡◌ {A = Result E B} panic (ok y) → ⊥
panic_no_ok y e = cc

err_no_ok : {E B : Type 0} (x : E) (y : B) → ◌≡◌ {A = Result E B} (err x) (ok y) → ⊥
err_no_ok x y e = cc

-- Where the loop goes on, the value was there.
pub went_on :
    {E S A B : Type 0} (s s' : S) (m : Result E A) (next : A → S × Result E B) (y : B)
    → on_ok s m next ≡ (s', ok y)
    → (a : A) × (m ≡ ok a) × (next a ≡ (s', ok y))
went_on s s' panic next y e = absurd (panic_no_ok y (ap (λ x. x.1) e))
went_on s s' (err x) next y e = absurd (err_no_ok x y (ap (λ z. z.1) e))
went_on s s' (ok a) next y e = (a, refl, e)

module _ {W : Type 0} (net : Net W) (endpoint : Bytes) (path : TablePath) (table_id : ℤ) where
  module _ {A : Type 0} (partition_of : A → Option ℤ) (bucket_of : A → ℤ) where
    -- The addresses that routeFor gives for items, one after the other.
    pub data RoutedBy : W × Cache → List A → List Bytes → W × Cache → Type 0 where
      stop : (s : W × Cache) → RoutedBy s [] [] s
      next :
          (s s1 s2 : W × Cache) (b : A) (node : ServerNode) (bs : List A) (addrs : List Bytes)
          → table_route_for net endpoint path s table_id (partition_of b) (bucket_of b)
            ≡ (s1, ok node)
          → RoutedBy s1 bs addrs s2
          → RoutedBy s (b ∷ bs) (address node ∷ addrs) s2

    -- Groups that the loops give: each item got the address that routeFor gave for it in its turn, and
    -- the group of an address gained exactly the items with that address.
    pub group_by_leader_lem :
        (s s' : W × Cache) (g g' : GroupsOf A) (bs : List A)
        → group_by_leader net endpoint path partition_of bucket_of s table_id g bs ≡ (s', ok g')
        → (addrs : List Bytes) × RoutedBy s bs addrs s'
          × ((a : Bytes) → items_of g' a ≡ items_of g a ++ items_at a addrs bs)
    unfolding group_by_leader items_at
    group_by_leader_lem s s' g g' [] e =
        let same_state : s ≡ s' = ap (λ x. x.0) e in
        let same_groups : g ≡ g' = ok_injective (ap (λ x. x.1) e) in
        (
          [],
          rw same_state (stop s'),
          λ a. ap (λ x. items_of x a) (sym same_groups) ∙ sym (append-nil (items_of g a)),
        )
    group_by_leader_lem s s' g g' (b ∷ bs) e =
        let found = table_route_for net endpoint path s table_id (partition_of b) (bucket_of b) in
        let (node, e1, e2) = went_on (found.0) s' (found.1) _ g' e in
        let (addrs, routed, spec) =
          group_by_leader_lem (found.0) s' (add_to_group g (address node) b) g' bs e2 in
        (
          address node ∷ addrs,
          next s (found.0) s' b node bs addrs (λ i. (found.0, e1 i)) routed,
          λ a. spec a ∙ added g (address node) a b (items_at a addrs bs),
        )

  abbrev pub Routed : W × Cache → List BucketRecordBatch → List Bytes → W × Cache → Type 0
  Routed = RoutedBy (λ b. b.partition_id) (λ b. b.bucket_id)

  -- If groupBatchesByLeader gives groups, each batch got the address that routeFor gave for it in its
  -- turn, refreshes included, and the group of an address gained exactly the batches with that address,
  -- in their order.
  pub group_batches_by_leader_lem :
      (s s' : W × Cache) (g g' : Groups) (bs : List BucketRecordBatch)
      → group_batches_by_leader net endpoint path s table_id g bs ≡ (s', ok g')
      → (addrs : List Bytes) × Routed s bs addrs s'
        × ((a : Bytes) → items_of g' a ≡ items_of g a ++ items_at a addrs bs)
  unfolding group_batches_by_leader
  group_batches_by_leader_lem = group_by_leader_lem (λ b. b.partition_id) (λ b. b.bucket_id)
