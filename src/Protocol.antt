-- ===== src/Protocol.antt =====
-- internal/protocol/errors.go: the errors that servers answer with.
use fluss_go_client.Prelude.{
  Bool, true, false, ◌||◌, Option, none, some, if◌then◌else◌, [], ◌∷◌, ◌++◌,
}
use fluss_go_client.Prelude.Int.{ℤ, pos, negsuc, eq_ℤ}
use fluss_go_client.Bytes.{Bytes}
use fluss_go_client.Text.{codes}
use fluss_go_client.Format.{format_d}

-- The variables of the package, compared by errors.Is.
pub data Sentinel : Type 0 where
  unsupported_version leader_not_available table_not_exist database_not_exist : Sentinel
  authentication timeout scanner_expired unknown_server : Sentinel

pub record ApiError : Type 0 where
  pub code : ℤ
  pub message : Bytes

-- `APIError.Error`
unfoldable pub error : ApiError → Bytes
error e = elim e.message [
  | [] ↦ codes "fluss API error code=" ++ format_d e.code
  | b ∷ bs ↦ codes "fluss API error code=" ++ (format_d e.code ++ (codes ": " ++ (b ∷ bs)))
]

-- `APIError.Unwrap`
unfoldable pub unwrap : ApiError → Option Sentinel
unwrap e =
    if eq_ℤ e.code (pos 2)
    then some Sentinel.unsupported_version
    else if eq_ℤ e.code (pos 4)
    then some Sentinel.database_not_exist
    else if eq_ℤ e.code (pos 7)
    then some Sentinel.table_not_exist
    else if eq_ℤ e.code (pos 25)
    then some Sentinel.timeout
    else if eq_ℤ e.code (pos 44)
    then some Sentinel.leader_not_available
    else if eq_ℤ e.code (pos 46) || eq_ℤ e.code (pos 51)
    then some Sentinel.authentication
    else if eq_ℤ e.code (negsuc 0)
    then some Sentinel.unknown_server
    else if eq_ℤ e.code (pos 66)
    then some Sentinel.scanner_expired
    else none

abbrev pub is_leader_not_available : Option Sentinel → Bool
is_leader_not_available (some Sentinel.leader_not_available) = true
is_leader_not_available _ = false
