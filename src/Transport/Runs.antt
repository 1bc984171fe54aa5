-- ===== src/Transport/Runs.antt =====
-- The calls of a connection at concrete request ids.
use fluss_go_client.Prelude.{ℕ, suc}
use fluss_go_client.Transport.{Connection, new_connection, Step, Connected, start, step, stored}
use fluss_go_client.Transport.Matching.{IsMatched, Connected-IsMatched}
use fluss_go_client.Transport.Blocking.{IsBlocked, Later, read_loop_blocks}

-- Request ids that are counted up from 1.
abbrev counted : ℕ → ℕ
counted c = suc c

abbrev one_call : Connection
one_call = stored counted new_connection 3

Connected-IsMatched_example : IsMatched counted one_call
Connected-IsMatched_example =
    Connected-IsMatched counted one_call
      (step new_connection one_call start (Step.store new_connection 3))

read_loop_blocks_example :
    (s : Connection) × Connected counted s × ((t : Connection) → Later counted s t → IsBlocked t)
read_loop_blocks_example = read_loop_blocks counted
