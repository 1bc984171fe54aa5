-- ===== src/Table/Send/Errors.antt =====
-- client/client.go and client/table.go: the errors of routeFor as the retries of table.go read them.
use fluss_go_client.Prelude.{◌≡◌, refl, Bool, true, false, ◌||◌, ◌++◌}
use fluss_go_client.Text.{codes}
use fluss_go_client.Format.{format_d}
use fluss_go_client.Prelude.Int.{ℤ}
use fluss_go_client.Client.{Error}
use fluss_go_client.Table.Retry.{no_route_text, starts_with, contains, is_retryable_write_route_err}
use fluss_go_client.Table.Send.{route_error}

or_true : (x : Bool) → (x || true) ≡ true
or_true true = refl
or_true false = refl

-- The texts of both errors of routeFor, whatever the ids in them, are among those that
-- isRetryableWriteRouteErr takes for retryable.
pub route_error_retryable :
    (table_id bucket_id leader_id : ℤ)
    → (is_retryable_write_route_err (route_error (Error.no_route table_id bucket_id)) ≡ true)
      × (is_retryable_write_route_err (route_error (Error.leader_not_found leader_id)) ≡ true)
unfolding is_retryable_write_route_err route_error contains starts_with
route_error_retryable table_id bucket_id leader_id =
    (refl, or_true (contains (format_d leader_id ++ codes " not found") no_route_text))
