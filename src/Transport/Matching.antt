-- ===== src/Transport/Matching.antt =====
-- internal/transport/client.go: responses and the calls that they go to.
use fluss_go_client.Prelude.{
  ℕ, ◌≡◌, refl, ap, sym, ◌∙◌, ◌==◌, ==_refl, Bool, true, false, Bool-cases, inl, inr, Option, none,
  some, if◌then◌else◌, List, [], ◌∷◌, arith,
}
use fluss_go_client.Prelude.Maps.{find, put, find-put}
use mathlib.Core.Path.{subst}
use fluss_go_client.Transport.{
  Answer, Reader, Connection, same_id, set_at, delete, after_fail_all, Step, Connected, start, step,
}

same_id_sound : (a b : ℕ) → same_id a b ≡ true → a ≡ b
same_id_sound a b h = ground (arith, h)

none_found : {c : ℕ} → ◌≡◌ {A = Option ℕ} none (some c) → ⊥
none_found h = cc

nothing_stored : (id c : ℕ) → find {V = ℕ} same_id [] id ≡ some c → ⊥
unfolding find
nothing_stored id c h = cc

find-delete_same : (m : List (ℕ × ℕ)) (id : ℕ) → find same_id (delete m id) id ≡ none
unfolding find delete
find-delete_same [] id = refl
find-delete_same ((k, d) ∷ m) id = elim (Bool-cases (k == id)) [
  | inl e ↦ rw e (find-delete_same m id)
  | inr e ↦ rw e (rw e (find-delete_same m id))
]

-- What is found behind a Delete was there before.
find-delete :
    (m : List (ℕ × ℕ)) (id j c : ℕ)
    → find same_id (delete m id) j ≡ some c
    → find same_id m j ≡ some c
unfolding find delete
find-delete [] id j c h = h
find-delete ((k, d) ∷ m) id j c h = elim (Bool-cases (k == id)) [
  | inl e ↦
      let rest : find same_id (delete m id) j ≡ some c = rw e at h in
      elim (Bool-cases (k == j)) [
        | inl t ↦
            let same : id ≡ j = sym (same_id_sound k id e) ∙ same_id_sound k j t in
            absurd (
              none_found
                (sym (find-delete_same m id) ∙ ap (λ x. find same_id (delete m id) x) same ∙ rest))
        | inr t ↦ rw t (find-delete m id j c rest)
      ]
  | inr e ↦
      let rest : (if k == j then some d else find same_id (delete m id) j) ≡ some c = rw e at h in
      elim (Bool-cases (k == j)) [
        | inl t ↦ rw t (rw t at rest)
        | inr t ↦ rw t (find-delete m id j c (rw t at rest))
      ]
]

module _ (id_of : ℕ → ℕ) where
  -- A response only to the call with its request id.
  abbrev pub IsOwn : ℕ → Option Answer → Type 0
  IsOwn c (some (Answer.reply id)) = id ≡ id_of c
  IsOwn c _ = Unit

  abbrev pub Delivers : Reader → Type 0
  Delivers (Reader.sending c a) = IsOwn c (some a)
  Delivers _ = Unit

  pub record IsMatched (s : Connection) : Type 0 where
    pub pending : (id c : ℕ) → find same_id s.pending id ≡ some c → id ≡ id_of c
    pub channels : (c : ℕ) → IsOwn c (s.channels c)
    pub results : (c : ℕ) → IsOwn c (s.results c)
    pub reader : Delivers s.reader

  set_at-IsOwn :
      (f : ℕ → Option Answer) (c : ℕ) (v : Option Answer)
      → ((k : ℕ) → IsOwn k (f k))
      → IsOwn c v
      → (k : ℕ) → IsOwn k (set_at f c v k)
  unfolding set_at
  set_at-IsOwn f c v h own k = elim (Bool-cases (k == c)) [
    | inl e ↦ rw e (subst (λ x. IsOwn x v) (sym (same_id_sound k c e)) own)
    | inr e ↦ rw e (h k)
  ]

  ended : (last : Bool) → Delivers (after_fail_all last)
  unfolding after_fail_all
  ended true = tt
  ended false = tt

  delete-owned :
      (m : List (ℕ × ℕ)) (i : ℕ)
      → ((id c : ℕ) → find same_id m id ≡ some c → id ≡ id_of c)
      → (id c : ℕ) → find same_id (delete m i) id ≡ some c
      → id ≡ id_of c
  delete-owned m i h id c e = h id c (find-delete m i id c e)

  put-owned :
      (m : List (ℕ × ℕ)) (d : ℕ)
      → ((id c : ℕ) → find same_id m id ≡ some c → id ≡ id_of c)
      → (id c : ℕ) → find same_id (put same_id m (id_of d) d) id ≡ some c
      → id ≡ id_of c
  put-owned m d h id c e = elim (Bool-cases (id_of d == id)) [
    | inl t ↦
        let found : some d ≡ some c =
          sym (find-put same_id same_id_sound ==_refl m (id_of d) d id ∙ rw t refl) ∙ e in
        let same : d ≡ c = cc in sym (same_id_sound (id_of d) id t) ∙ ap id_of same
    | inr t ↦ h id c (sym (find-put same_id same_id_sound ==_refl m (id_of d) d id ∙ rw t refl) ∙ e)
  ]

  Step-IsMatched : (s t : Connection) → Step id_of s t → IsMatched s → IsMatched t
  Step-IsMatched _ _ (Step.store s c) h = record {
    pending = put-owned s.pending c h.pending;
    channels = h.channels;
    results = h.results;
    reader = h.reader;
  }
  Step-IsMatched _ _ (Step.receive s c a e f) h = record {
    channels = set_at-IsOwn s.channels c none h.channels tt;
    results = set_at-IsOwn s.results c (some a) h.results (subst (λ o. IsOwn c o) e (h.channels c));
    pending = h.pending;
    reader = h.reader;
  }
  Step-IsMatched _ _ (Step.give_up s c f) h = record {
    results = set_at-IsOwn s.results c (some Answer.gave_up) h.results tt;
    pending = h.pending;
    channels = h.channels;
    reader = h.reader;
  }
  Step-IsMatched _ _ (Step.forget s c a f) h = record {
    pending = delete-owned s.pending (id_of c) h.pending;
    channels = h.channels;
    results = h.results;
    reader = h.reader;
  }
  Step-IsMatched _ _ (Step.resolve s id c e f) h = record {
    reader = h.pending id c f;
    pending = h.pending;
    channels = h.channels;
    results = h.results;
  }
  Step-IsMatched _ _ (Step.send s c a e f) h = record {
    channels = set_at-IsOwn s.channels c (some a) h.channels (subst (λ r. Delivers r) e h.reader);
    reader = tt;
    pending = h.pending;
    results = h.results;
  }
  Step-IsMatched _ _ (Step.fail_all s last e) h = record {
    reader = tt;
    pending = h.pending;
    channels = h.channels;
    results = h.results;
  }
  Step-IsMatched _ _ (Step.fail_next s last id c e f) h = record {
    reader = tt;
    pending = h.pending;
    channels = h.channels;
    results = h.results;
  }
  Step-IsMatched _ _ (Step.fail_one s last id c e f) h = record {
    pending = delete-owned s.pending id h.pending;
    channels = set_at-IsOwn s.channels c (some Answer.failure) h.channels tt;
    results = h.results;
    reader = tt;
  }
  Step-IsMatched _ _ (Step.fail_end s last e) h = record {
    reader = ended last;
    pending = h.pending;
    channels = h.channels;
    results = h.results;
  }

  -- Under any interleaving of the calls of a connection with readLoop, a response that is stored in a
  -- channel, on its way to one or returned by a call has the request id of that call, even where calls
  -- share a request id.
  pub Connected-IsMatched : (s : Connection) → Connected id_of s → IsMatched s
  Connected-IsMatched _ start = record {
    pending = λ id c e. absurd (nothing_stored id c e);
    channels = λ c. tt;
    results = λ c. tt;
    reader = tt;
  }
  Connected-IsMatched _ (step s t h k) = Step-IsMatched s t k (Connected-IsMatched s h)
