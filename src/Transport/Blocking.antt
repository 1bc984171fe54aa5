-- ===== src/Transport/Blocking.antt =====
-- internal/transport/client.go: readLoop in failAll, and a call whose channel is full.
use fluss_go_client.Prelude.{
  ℕ, ◌≡◌, refl, ap, sym, ◌∙◌, ◌==◌, ==_refl, Bool, true, false, Bool-cases, inl, inr, Option, none,
  some, [], arith,
}
use fluss_go_client.Prelude.Maps.{find, put}
use fluss_go_client.Transport.{
  Answer, Reader, Connection, new_connection, same_id, set_at, Step, Connected, start, step,
}

-- readLoop waits in failAll for a channel that is full, of a call that has returned without its message.
pub record IsBlocked (s : Connection) : Type 0 where
  pub call : ℕ
  pub id : ℕ
  pub last : Bool
  pub message : Answer
  pub waits : s.reader ≡ Reader.fail_sending last id call
  pub full : s.channels call ≡ some message
  pub left : s.results call ≡ some Answer.gave_up

same_sound : (a b : ℕ) → (a == b) ≡ true → a ≡ b
same_sound a b h = ground (arith, h)

-- A write to another call's place.
other_place :
    (f : ℕ → Option Answer) (c d : ℕ) (v : Option Answer) (a : Answer)
    → (d ≡ c → ⊥)
    → f d ≡ some a
    → set_at f c v d ≡ some a
unfolding set_at
other_place f c d v a other h = elim (Bool-cases (d == c)) [
  | inl e ↦ absurd (other (same_sound d c e))
  | inr e ↦ rw e h
]

returned_once :
    (f : ℕ → Option Answer) (c d : ℕ) (a : Answer) → f c ≡ none → f d ≡ some a → d ≡ c → ⊥
returned_once f c d a e h same = none_returned (sym e ∙ ap f (sym same) ∙ h)
  where
    none_returned : ◌≡◌ {A = Option Answer} none (some a) → ⊥
    none_returned e' = cc

-- A send of failAll.
abbrev in_fail_all : Reader → Bool
in_fail_all (Reader.fail_sending last id c) = true
in_fail_all _ = false

not_in_fail_all :
    (r : Reader) (last : Bool) (id c : ℕ)
    → in_fail_all r ≡ false
    → r ≡ Reader.fail_sending last id c
    → ⊥
not_in_fail_all r last id c h e = true_false (sym (ap in_fail_all e) ∙ h)
  where
    true_false : true ≡ false → ⊥
    true_false e' = cc

module _ (id_of : ℕ → ℕ) where
  pub data Later : Connection → Connection → Type 0 where
    now : (s : Connection) → Later s s
    more : (s t u : Connection) → Later s t → Step id_of t u → Later s u

  Step-IsBlocked : (s t : Connection) → Step id_of s t → IsBlocked s → IsBlocked t
  Step-IsBlocked _ _ (Step.store s c) b = record {
    call = b.call;
    id = b.id;
    last = b.last;
    message = b.message;
    waits = b.waits;
    full = b.full;
    left = b.left;
  }
  Step-IsBlocked _ _ (Step.receive s c a e f) b =
      let other = returned_once s.results c b.call Answer.gave_up f b.left in
      record {
        call = b.call;
        id = b.id;
        last = b.last;
        message = b.message;
        waits = b.waits;
        full = other_place s.channels c b.call none b.message other b.full;
        left = other_place s.results c b.call (some a) Answer.gave_up other b.left;
      }
  Step-IsBlocked _ _ (Step.give_up s c f) b =
      let other = returned_once s.results c b.call Answer.gave_up f b.left in
      record {
        call = b.call;
        id = b.id;
        last = b.last;
        message = b.message;
        waits = b.waits;
        full = b.full;
        left = other_place s.results c b.call (some Answer.gave_up) Answer.gave_up other b.left;
      }
  Step-IsBlocked _ _ (Step.forget s c a f) b = record {
    call = b.call;
    id = b.id;
    last = b.last;
    message = b.message;
    waits = b.waits;
    full = b.full;
    left = b.left;
  }
  Step-IsBlocked _ _ (Step.resolve s id c e f) b =
      absurd (not_in_fail_all s.reader b.last b.id b.call (ap in_fail_all e) b.waits)
  Step-IsBlocked _ _ (Step.send s c a e f) b =
      absurd (not_in_fail_all s.reader b.last b.id b.call (ap in_fail_all e) b.waits)
  Step-IsBlocked _ _ (Step.fail_all s last e) b =
      absurd (not_in_fail_all s.reader b.last b.id b.call (ap in_fail_all e) b.waits)
  Step-IsBlocked _ _ (Step.fail_next s last id c e f) b =
      absurd (not_in_fail_all s.reader b.last b.id b.call (ap in_fail_all e) b.waits)
  Step-IsBlocked _ _ (Step.fail_one s last id c e f) b =
      absurd (elsewhere (sym e ∙ b.waits) f b.full)
    where
      elsewhere :
          Reader.fail_sending last id c ≡ Reader.fail_sending b.last b.id b.call
          → s.channels c ≡ none
          → s.channels b.call ≡ some b.message
          → ⊥
      elsewhere e' f' g = cc
  Step-IsBlocked _ _ (Step.fail_end s last e) b =
      absurd (not_in_fail_all s.reader b.last b.id b.call (ap in_fail_all e) b.waits)

  Later-IsBlocked : (s t : Connection) → Later s t → IsBlocked s → IsBlocked t
  Later-IsBlocked _ _ (now s) b = b
  Later-IsBlocked _ _ (more s t u l k) b = Step-IsBlocked t u k (Later-IsBlocked s t l b)

  -- A call whose response is in its channel when the connection fails, and whose context ends then.
  abbrev waiting : Connection
  waiting = record new_connection { pending = put same_id [] (id_of 0) 0 }

  abbrev answered : Connection
  answered = record waiting { channels = set_at (λ c. none) 0 (some (Answer.reply (id_of 0))) }

  abbrev pub blocked : Connection
  blocked = record answered {
    reader = Reader.fail_sending true (id_of 0) 0;
    results = set_at (λ c. none) 0 (some Answer.gave_up);
  }

  stored_found : find same_id waiting.pending (id_of 0) ≡ some 0
  unfolding find put
  stored_found = rw (==_refl (id_of 0)) refl

  blocked-Connected : Connected id_of blocked
  blocked-Connected =
      let s1 : Connected id_of waiting =
        step new_connection waiting start (Step.store new_connection 0) in
      let resolving = record waiting { reader = Reader.sending 0 (Answer.reply (id_of 0)) } in
      let s2 : Connected id_of resolving =
        step waiting resolving s1 (Step.resolve waiting (id_of 0) 0 refl stored_found) in
      let s3 : Connected id_of answered =
        step resolving answered s2 (Step.send resolving 0 (Answer.reply (id_of 0)) refl refl) in
      let failing = record answered { reader = Reader.failing true } in
      let s4 : Connected id_of failing =
        step answered failing s3 (Step.fail_all answered true refl) in
      let reaching = record answered { reader = Reader.fail_sending true (id_of 0) 0 } in
      let s5 : Connected id_of reaching =
        step failing reaching s4 (Step.fail_next failing true (id_of 0) 0 refl stored_found) in
      step reaching blocked s5 (Step.give_up reaching 0 refl)

  blocked-IsBlocked : IsBlocked blocked
  unfolding set_at
  blocked-IsBlocked = record {
    call = 0;
    id = id_of 0;
    last = true;
    message = Answer.reply (id_of 0);
    waits = refl;
    full = refl;
    left = refl;
  }

  -- A connection can come into a state from which, whatever steps follow, readLoop stays blocked in
  -- failAll: it waits to put an error into the channel of a call whose response is still in there, and
  -- the call has returned for the end of its context.
  pub read_loop_blocks :
      (s : Connection) × Connected id_of s × ((t : Connection) → Later s t → IsBlocked t)
  read_loop_blocks =
      (blocked, blocked-Connected, λ t l. Later-IsBlocked blocked t l blocked-IsBlocked)
