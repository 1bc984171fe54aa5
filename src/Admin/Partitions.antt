-- ===== src/Admin/Partitions.antt =====
-- client/admin.go: partitions.
use fluss_go_client.Prelude.{Bool, Option, none, some, List, [], map}
use fluss_go_client.Prelude.Int.{ℤ}
use fluss_go_client.Result.{Result}
use fluss_go_client.Bytes.{Bytes}
use fluss_go_client.Metadata.Cache.{TablePath, Cache}
use fluss_go_client.Client.{or_zero, or_empty}
use fluss_go_client.Table.Retry.{GoError}
use fluss_go_client.Table.Send.{Net}
use fluss_go_client.Admin.{invoke_any, invoke_coordinator, answered}

abbrev pub PartitionKv : Type 0
PartitionKv = Bytes × Bytes

pub record PartitionInfo : Type 0 where
  pub partition_id : ℤ
  pub partition_spec : List PartitionKv
  pub remote_data_dir : Bytes

abbrev pub PbKeyValue : Type 0
PbKeyValue = Option Bytes × Option Bytes

pub record PbPartitionInfo : Type 0 where
  pub partition_id : Option ℤ
  pub partition_spec : Option (List PbKeyValue)
  pub remote_data_dir : Option Bytes

pub record ListPartitionInfosRequest : Type 0 where
  pub table_path : TablePath
  pub partial_partition_spec : Option (List PbKeyValue)

-- CreatePartition and DropPartition send the same fields; `none` is a nil spec.
pub record PartitionRequest : Type 0 where
  pub table_path : TablePath
  pub partition_spec : Option (List PbKeyValue)
  pub ignore_if_not_exists : Bool

abbrev pub key_value : PartitionKv → PbKeyValue
key_value (key, value) = (some key, some value)

unfoldable pub build_partition_spec : Option (List PartitionKv) → Option (List PbKeyValue)
build_partition_spec none = none
build_partition_spec (some spec) = some (map key_value spec)

abbrev pub read_key_value : PbKeyValue → PartitionKv
read_key_value (key, value) = (or_empty key, or_empty value)

abbrev pub read_spec : Option (List PbKeyValue) → List PartitionKv
read_spec none = []
read_spec (some kvs) = map read_key_value kvs

-- A round of the loop of `ListPartitionInfosWithSpec`.
unfoldable pub partition_info : PbPartitionInfo → PartitionInfo
partition_info item = record {
  partition_id = or_zero item.partition_id;
  partition_spec = read_spec item.partition_spec;
  remote_data_dir = or_empty item.remote_data_dir;
}

module _ {W : Type 0} (net : Net W) (endpoint : Bytes) where
  abbrev State : Type 0
  State = W × Cache

  unfoldable pub list_partition_infos_with_spec :
      (W → Bytes → ListPartitionInfosRequest → W × Result GoError (List PbPartitionInfo))
      → State
      → TablePath
      → Option (List PartitionKv)
      → State × Result GoError (List PartitionInfo)
  list_partition_infos_with_spec send s path spec =
      answered (λ items. map partition_info items)
        (invoke_any net endpoint send s
          (record { table_path = path; partial_partition_spec = build_partition_spec spec }))

  unfoldable pub list_partition_infos :
      (W → Bytes → ListPartitionInfosRequest → W × Result GoError (List PbPartitionInfo))
      → State
      → TablePath
      → State × Result GoError (List PartitionInfo)
  list_partition_infos send s path = list_partition_infos_with_spec send s path none

  -- `CreatePartition`, and `DropPartition` with a call of its own.
  unfoldable pub create_partition :
      (W → Bytes → PartitionRequest → W × Result GoError Unit)
      → State
      → TablePath
      → Option (List PartitionKv)
      → Bool
      → State × Result GoError Unit
  create_partition send s path spec ignore_if_not_exists =
      invoke_coordinator net endpoint send s (record {
        table_path = path;
        partition_spec = build_partition_spec spec;
        ignore_if_not_exists = ignore_if_not_exists;
      })

  unfoldable pub drop_partition :
      (W → Bytes → PartitionRequest → W × Result GoError Unit)
      → State
      → TablePath
      → Option (List PartitionKv)
      → Bool
      → State × Result GoError Unit
  drop_partition send s path spec ignore_if_not_exists =
      invoke_coordinator net endpoint send s (record {
        table_path = path;
        partition_spec = build_partition_spec spec;
        ignore_if_not_exists = ignore_if_not_exists;
      })
