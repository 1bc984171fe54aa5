-- ===== src/Metadata/TableDescriptor.antt =====
-- internal/metadata/table_descriptor.go: what is read of a table descriptor, as a value that
-- json.Unmarshal makes of the text.
use fluss_go_client.Prelude.{Option, none, some, List, []}
use fluss_go_client.Result.{Result, ok, err, ◌>>=◌}
use fluss_go_client.Bytes.{Bytes}

pub data Error : Type 0 where
  bad_json : Error

-- `properties` may be absent.
pub record TableDescriptor : Type 0 where
  pub columns : List Bytes
  pub primary_key : List Bytes
  pub partition_key : List Bytes
  pub bucket_key : List Bytes
  pub properties : Option (List (Bytes × Bytes))

pub record TableKeys : Type 0 where
  pub column_names : List Bytes
  pub partition_keys : List Bytes
  pub primary_keys : List Bytes
  pub bucket_keys : List Bytes

module _ (unmarshal : Bytes → Option TableDescriptor) where
  abbrev read : Bytes → Result Error TableDescriptor
  read text = elim (unmarshal text) [ none ↦ err Error.bad_json | some d ↦ ok d ]

  unfoldable pub parse_table_descriptor : Bytes → Result Error TableKeys
  parse_table_descriptor text = do
    d ← read text
    ok (record {
      column_names = d.columns;
      partition_keys = d.partition_key;
      primary_keys = d.primary_key;
      bucket_keys = d.bucket_key;
    })

  unfoldable pub parse_table_keys : Bytes → Result Error (List Bytes × List Bytes)
  parse_table_keys text = do
    keys ← parse_table_descriptor text
    ok (keys.primary_keys, keys.bucket_keys)

  unfoldable pub parse_table_properties : Bytes → Result Error (List (Bytes × Bytes))
  parse_table_properties text = do
    d ← read text
    ok (elim d.properties [ none ↦ [] | some properties ↦ properties ])
