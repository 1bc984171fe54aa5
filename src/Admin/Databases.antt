-- ===== src/Admin/Databases.antt =====
-- client/admin.go: databases.
use fluss_go_client.Prelude.{Bool, Option, none, some, List, [], ◌∷◌, map}
use fluss_go_client.Prelude.Int.{ℤ}
use fluss_go_client.Result.{Result}
use fluss_go_client.Bytes.{Bytes}
use fluss_go_client.Metadata.Cache.{Cache}
use fluss_go_client.Client.{or_zero, or_empty}
use fluss_go_client.Table.Retry.{GoError}
use fluss_go_client.Table.Send.{Net}
use fluss_go_client.Admin.{invoke_any, invoke_coordinator, answered}
use fluss_go_client.Table.Read.{or_false}

pub record DatabaseInfo : Type 0 where
  pub json : Bytes
  pub created_time : ℤ
  pub modified_time : ℤ

pub record DatabaseSummary : Type 0 where
  pub database_name : Bytes
  pub created_time : ℤ
  pub table_count : ℤ

pub record PbDatabaseSummary : Type 0 where
  pub database_name : Option Bytes
  pub created_time : Option ℤ
  pub table_count : Option ℤ

pub record ListDatabasesResponse : Type 0 where
  pub database_name : List Bytes
  pub database_summary : List PbDatabaseSummary

-- An absent `database_json` is `none`.
pub record CreateDatabaseRequest : Type 0 where
  pub database_name : Bytes
  pub ignore_if_exists : Bool
  pub database_json : Option Bytes

pub record DropDatabaseRequest : Type 0 where
  pub database_name : Bytes
  pub ignore_if_not_exists : Bool
  pub cascade : Bool

pub record GetDatabaseInfoResponse : Type 0 where
  pub database_json : Option Bytes
  pub created_time : Option ℤ
  pub modified_time : Option ℤ

abbrev pub summary : PbDatabaseSummary → DatabaseSummary
summary item = record {
  database_name = or_empty item.database_name;
  created_time = or_zero item.created_time;
  table_count = or_zero item.table_count;
}

-- `if len(databaseJSON) > 0`
abbrev pub json_given : Bytes → Option Bytes
json_given [] = none
json_given (b ∷ bs) = some (b ∷ bs)

module _ {W : Type 0} (net : Net W) (endpoint : Bytes) where
  abbrev State : Type 0
  State = W × Cache

  unfoldable pub list_databases :
      (W → Bytes → Bool → W × Result GoError ListDatabasesResponse)
      → State
      → Bool
      → State × Result GoError (List Bytes × List DatabaseSummary)
  list_databases send s include_summary =
      answered (λ r. (r.database_name, map summary r.database_summary))
        (invoke_any net endpoint send s include_summary)

  -- `DatabaseExists`; the answer has the field `exists`.
  unfoldable pub database_exists :
      (W → Bytes → Bytes → W × Result GoError (Option Bool))
      → State
      → Bytes
      → State × Result GoError Bool
  database_exists send s name = answered or_false (invoke_any net endpoint send s name)

  unfoldable pub create_database :
      (W → Bytes → CreateDatabaseRequest → W × Result GoError Unit)
      → State
      → Bytes
      → Bytes
      → Bool
      → State × Result GoError Unit
  create_database send s name json ignore_if_exists =
      invoke_coordinator net endpoint send s (record {
        database_name = name;
        ignore_if_exists = ignore_if_exists;
        database_json = json_given json;
      })

  unfoldable pub drop_database :
      (W → Bytes → DropDatabaseRequest → W × Result GoError Unit)
      → State
      → Bytes
      → Bool
      → Bool
      → State × Result GoError Unit
  drop_database send s name ignore_if_not_exists cascade =
      invoke_coordinator net endpoint send s (record {
        database_name = name;
        ignore_if_not_exists = ignore_if_not_exists;
        cascade = cascade;
      })

  abbrev pub database_info : GetDatabaseInfoResponse → DatabaseInfo
  database_info r = record {
    json = or_empty r.database_json;
    created_time = or_zero r.created_time;
    modified_time = or_zero r.modified_time;
  }

  unfoldable pub get_database_info :
      (W → Bytes → Bytes → W × Result GoError GetDatabaseInfoResponse)
      → State
      → Bytes
      → State × Result GoError DatabaseInfo
  get_database_info send s name = answered database_info (invoke_any net endpoint send s name)

  unfoldable pub list_tables :
      (W → Bytes → Bytes → W × Result GoError (List Bytes))
      → State
      → Bytes
      → State × Result GoError (List Bytes)
  list_tables send s database = invoke_any net endpoint send s database
