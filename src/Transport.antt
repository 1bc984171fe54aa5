-- ===== src/Transport.antt =====
-- internal/transport/client.go: the calls under way on a connection. The calls are numbered, and call c
-- has the request id `id_of c`; a step is what a caller or readLoop does between two points where others
-- may run. Sockets, frames and messages are left out: an answer is the request id in its frame. The send
-- of failAll and the Delete behind it are one step.
pub mod Matching
pub mod Blocking
mod Runs
use fluss_go_client.Prelude.{
  ℕ, ◌≡◌, ◌==◌, Bool, true, false, Option, none, some, if◌then◌else◌, List, [], ◌∷◌,
}
use fluss_go_client.Prelude.Maps.{find, put}

-- What a call gets: a response under a request id, an error of failAll, or, without a message, the end of
-- its context or of the connection.
pub data Answer : Type 0 where
  reply : ℕ → Answer
  failure : Answer
  gave_up : Answer

-- Where readLoop is: reading a frame, in `call.ch <- ...` of resolve or resolveError, in failAll, in
-- failAll's `call.ch <- ...`, or behind the loop. `last` says whether failAll was called for an error of
-- the connection.
pub data Reader : Type 0 where
  reading : Reader
  sending : ℕ → Answer → Reader
  failing : (last : Bool) → Reader
  fail_sending : (last : Bool) (id call : ℕ) → Reader
  stopped : Reader

abbrev pub same_id : ℕ → ℕ → Bool
same_id a b = a == b

-- `pending`, the channels, each of capacity 1, and what the calls returned.
pub record Connection : Type 0 where
  pub pending : List (ℕ × ℕ)
  pub channels : ℕ → Option Answer
  pub results : ℕ → Option Answer
  pub reader : Reader

abbrev pub new_connection : Connection
new_connection = record {
  pending = [];
  channels = λ c. none;
  results = λ c. none;
  reader = Reader.reading;
}

unfoldable pub set_at : (ℕ → Option Answer) → ℕ → Option Answer → ℕ → Option Answer
set_at f c v k = if k == c then v else f k

-- sync.Map.Delete
unfoldable pub delete : List (ℕ × ℕ) → ℕ → List (ℕ × ℕ)
delete [] id = []
delete ((j, c) ∷ m) id = let rest = delete m id in if same_id j id then rest else (j, c) ∷ rest

unfoldable pub after_fail_all : Bool → Reader
after_fail_all true = Reader.stopped
after_fail_all false = Reader.reading

module _ (id_of : ℕ → ℕ) where
  abbrev pub stored : Connection → ℕ → Connection
  stored s c = record s { pending = put same_id s.pending (id_of c) c }

  abbrev pub received : Connection → ℕ → Answer → Connection
  received s c a = record s {
    channels = set_at s.channels c none;
    results = set_at s.results c (some a);
  }

  abbrev pub failed_one : Connection → Bool → ℕ → ℕ → Connection
  failed_one s last id c = record s {
    pending = delete s.pending id;
    channels = set_at s.channels c (some Answer.failure);
    reader = Reader.failing last;
  }

  pub data Step : Connection → Connection → Type 0 where
    store : (s : Connection) (c : ℕ) → Step s (stored s c)
    receive :
        (s : Connection) (c : ℕ) (a : Answer)
        → s.channels c ≡ some a
        → s.results c ≡ none
        → Step s (received s c a)
    give_up :
        (s : Connection) (c : ℕ)
        → s.results c ≡ none
        → Step s (record s { results = set_at s.results c (some Answer.gave_up) })
    forget :
        (s : Connection) (c : ℕ) (a : Answer)
        → s.results c ≡ some a
        → Step s (record s { pending = delete s.pending (id_of c) })
    resolve :
        (s : Connection) (id c : ℕ)
        → s.reader ≡ Reader.reading
        → find same_id s.pending id ≡ some c
        → Step s (record s { reader = Reader.sending c (Answer.reply id) })
    send :
        (s : Connection) (c : ℕ) (a : Answer)
        → s.reader ≡ Reader.sending c a
        → s.channels c ≡ none
        → Step s (record s { channels = set_at s.channels c (some a); reader = Reader.reading })
    fail_all :
        (s : Connection) (last : Bool)
        → s.reader ≡ Reader.reading
        → Step s (record s { reader = Reader.failing last })
    fail_next :
        (s : Connection) (last : Bool) (id c : ℕ)
        → s.reader ≡ Reader.failing last
        → find same_id s.pending id ≡ some c
        → Step s (record s { reader = Reader.fail_sending last id c })
    fail_one :
        (s : Connection) (last : Bool) (id c : ℕ)
        → s.reader ≡ Reader.fail_sending last id c
        → s.channels c ≡ none
        → Step s (failed_one s last id c)
    fail_end :
        (s : Connection) (last : Bool)
        → s.reader ≡ Reader.failing last
        → Step s (record s { reader = after_fail_all last })

  -- The states of a connection.
  pub data Connected : Connection → Type 0 where
    start : Connected new_connection
    step : (s t : Connection) → Connected s → Step s t → Connected t
