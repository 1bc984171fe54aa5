-- ===== src/Admin/Tables.antt =====
-- client/admin.go: tables, and the changes of AlterTable.
use fluss_go_client.Prelude.{Bool, Option, List, [], ◌∷◌}
use fluss_go_client.Prelude.Int.{ℤ}
use fluss_go_client.Result.{Result, ok, err, ◌>>=◌}
use fluss_go_client.Bytes.{Bytes}
use fluss_go_client.Metadata.Cache.{TablePath, Cache}
use fluss_go_client.Client.{or_zero, or_empty}
use fluss_go_client.Table.Retry.{GoError}
use fluss_go_client.Table.Send.{Net}
use fluss_go_client.Admin.{invoke_any, invoke_coordinator, answered}
use fluss_go_client.Text.{codes}
use fluss_go_client.Table.Read.{or_false}

-- AlterConfigOp and ColumnPositionType are numbers.
pub record TableConfigChange : Type 0 where
  pub key : Bytes
  pub value : Option Bytes
  pub op : ℤ

pub record AddColumnChange : Type 0 where
  pub column_name : Bytes
  pub data_type_json : Bytes
  pub comment : Option Bytes
  pub column_position_type : ℤ

-- A nil `DataTypeJSON` is `none`.
pub record ModifyColumnChange : Type 0 where
  pub column_name : Bytes
  pub data_type_json : Option Bytes
  pub comment : Option Bytes
  pub column_position_type : Option ℤ

-- `other` is a value of another type that has the method of the interface, such as a pointer to one of
-- the types.
pub data AlterTableChange : Type 0 where
  config : TableConfigChange → AlterTableChange
  add_column : AddColumnChange → AlterTableChange
  drop_column : Bytes → AlterTableChange
  rename_column : Bytes → Bytes → AlterTableChange
  modify_column : ModifyColumnChange → AlterTableChange
  other : AlterTableChange

pub record PbAlterConfig : Type 0 where
  pub config_key : Bytes
  pub config_value : Option Bytes
  pub op_type : ℤ

pub record PbAddColumn : Type 0 where
  pub column_name : Bytes
  pub data_type_json : Bytes
  pub comment : Option Bytes
  pub column_position_type : ℤ

pub record PbModifyColumn : Type 0 where
  pub column_name : Bytes
  pub data_type_json : Option Bytes
  pub comment : Option Bytes
  pub column_position_type : Option ℤ

unfoldable pub build_alter_config : TableConfigChange → PbAlterConfig
build_alter_config change = record {
  config_key = change.key;
  config_value = change.value;
  op_type = change.op;
}

unfoldable pub build_add_column : AddColumnChange → PbAddColumn
build_add_column change = record {
  column_name = change.column_name;
  data_type_json = change.data_type_json;
  comment = change.comment;
  column_position_type = change.column_position_type;
}

unfoldable pub build_modify_column : ModifyColumnChange → PbModifyColumn
build_modify_column change = record {
  column_name = change.column_name;
  data_type_json = change.data_type_json;
  comment = change.comment;
  column_position_type = change.column_position_type;
}

-- The lists of changes of a request.
pub record Changes : Type 0 where
  pub config_changes : List PbAlterConfig
  pub add_columns : List PbAddColumn
  pub drop_columns : List Bytes
  pub rename_columns : List (Bytes × Bytes)
  pub modify_columns : List PbModifyColumn

abbrev pub unsupported_change : GoError
unsupported_change = record {
  leader_not_available = Bool.false;
  text = codes "fluss: unsupported alter table change type";
}

abbrev pub no_changes : Changes
no_changes = record {
  config_changes = [];
  add_columns = [];
  drop_columns = [];
  rename_columns = [];
  modify_columns = [];
}

-- A round of the loop of `AlterTable`, before those behind it.
abbrev pub add_change : AlterTableChange → Changes → Result GoError Changes
add_change (AlterTableChange.config v) r =
    ok (record r { config_changes = build_alter_config v ∷ r.config_changes })
add_change (AlterTableChange.add_column v) r =
    ok (record r { add_columns = build_add_column v ∷ r.add_columns })
add_change (AlterTableChange.drop_column name) r =
    ok (record r { drop_columns = name ∷ r.drop_columns })
add_change (AlterTableChange.rename_column old new) r =
    ok (record r { rename_columns = (old, new) ∷ r.rename_columns })
add_change (AlterTableChange.modify_column v) r =
    ok (record r { modify_columns = build_modify_column v ∷ r.modify_columns })
add_change AlterTableChange.other r = err unsupported_change

-- The loop of `AlterTable`; the text of its error has no type name here.
unfoldable pub alter_changes : List AlterTableChange → Result GoError Changes
alter_changes [] = ok no_changes
alter_changes (change ∷ changes) = do r ← alter_changes changes; add_change change r

pub record AlterTableRequest : Type 0 where
  pub table_path : TablePath
  pub ignore_if_not_exists : Bool
  pub changes : Changes

pub record CreateTableRequest : Type 0 where
  pub table_path : TablePath
  pub table_json : Bytes
  pub ignore_if_exists : Bool

pub record DropTableRequest : Type 0 where
  pub table_path : TablePath
  pub ignore_if_not_exists : Bool

pub record SchemaInfo : Type 0 where
  pub schema_id : ℤ
  pub json : Bytes

pub record GetTableSchemaRequest : Type 0 where
  pub table_path : TablePath
  pub schema_id : Option ℤ

pub record GetTableSchemaResponse : Type 0 where
  pub schema_id : Option ℤ
  pub schema_json : Option Bytes

module _ {W : Type 0} (net : Net W) (endpoint : Bytes) where
  abbrev State : Type 0
  State = W × Cache

  unfoldable pub table_exists :
      (W → Bytes → TablePath → W × Result GoError (Option Bool))
      → State
      → TablePath
      → State × Result GoError Bool
  table_exists send s path = answered or_false (invoke_any net endpoint send s path)

  unfoldable pub create_table :
      (W → Bytes → CreateTableRequest → W × Result GoError Unit)
      → State
      → TablePath
      → Bytes
      → Bool
      → State × Result GoError Unit
  create_table send s path json ignore_if_exists =
      invoke_coordinator net endpoint send s
        (record { table_path = path; table_json = json; ignore_if_exists = ignore_if_exists })

  -- A request that cannot be built is not sent.
  abbrev pub send_built :
      {Req Resp : Type 0}
      → (W → Bytes → Req → W × Result GoError Resp)
      → W
      → Bytes
      → Result GoError Req
      → W × Result GoError Resp
  send_built send w addr Result.panic = (w, Result.panic)
  send_built send w addr (err e) = (w, err e)
  send_built send w addr (ok req) = send w addr req

  unfoldable pub alter_table :
      (W → Bytes → AlterTableRequest → W × Result GoError Unit)
      → State
      → TablePath
      → List AlterTableChange
      → Bool
      → State × Result GoError Unit
  alter_table send s path changes ignore_if_not_exists =
      invoke_coordinator net endpoint (send_built send) s (
        alter_changes changes >>= λ r.
        ok (record { table_path = path; ignore_if_not_exists = ignore_if_not_exists; changes = r }))

  unfoldable pub drop_table :
      (W → Bytes → DropTableRequest → W × Result GoError Unit)
      → State
      → TablePath
      → Bool
      → State × Result GoError Unit
  drop_table send s path ignore_if_not_exists =
      invoke_coordinator net endpoint send s
        (record { table_path = path; ignore_if_not_exists = ignore_if_not_exists })

  abbrev pub schema_info : GetTableSchemaResponse → SchemaInfo
  schema_info r = record { schema_id = or_zero r.schema_id; json = or_empty r.schema_json }

  unfoldable pub get_table_schema :
      (W → Bytes → GetTableSchemaRequest → W × Result GoError GetTableSchemaResponse)
      → State
      → TablePath
      → Option ℤ
      → State × Result GoError SchemaInfo
  get_table_schema send s path schema_id =
      answered schema_info
        (invoke_any net endpoint send s (record { table_path = path; schema_id = schema_id }))
