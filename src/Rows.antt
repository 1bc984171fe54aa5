-- ===== src/Rows.antt =====
-- client/row.go: the row API of the table client. Rows are encoded for the writes and decoded from the
-- answers to the reads.
pub mod Encoding
pub mod Decoding
pub mod Lookups
pub mod Keys
pub mod Targets
pub mod Snapshots
pub mod Versions
pub mod Scanned
pub mod Stored
mod Runs
use fluss_go_client.Prelude.{
  ℕ, suc, ◌+◌, ◌-◌, ◌%◌, ◌^◌, ◌==◌, not, Bool, true, false, if◌then◌else◌, Option, none, some, List,
  [], ◌∷◌, length,
}
use fluss_go_client.Prelude.Int.{ℤ, pos, negsuc, eq_ℤ}
use fluss_go_client.Prelude.Maps.{find}
use fluss_go_client.Result.{Result, ok, err, ◌>>=◌}
use fluss_go_client.Bytes.{Bytes}
use fluss_go_client.Bytes.Equal.{bytes_eq}
use fluss_go_client.Text.{codes, to_upper}
use fluss_go_client.Client.{or_empty}
use fluss_go_client.Row.Types
use fluss_go_client.Row.Types.{Fields}
use fluss_go_client.Row.Value.{Items}
use fluss_go_client.Metadata.TableDescriptor
use fluss_go_client.Table.Retry.{GoError}

-- The schema of a row, and its values.
pub record Row : Type 0 where
  pub schema : Fields
  pub values : Items

-- The errors, without the texts of those of this file.
pub data Error : Type 0 where
  call : GoError → Error
  codec : Types.Error → Error
  descriptor : TableDescriptor.Error → Error
  key_not_found unsupported_compression : Bytes → Error
  no_rows no_target_columns payload_too_short : Error
  field_mismatch bad_schema key_of value_of : ℕ → Error
  result_count value_count no_progress : ℕ → Error

-- The inner loop of `keyColumnsByName`: the first index of a name.
unfoldable pub index_of : ℕ → Bytes → List Bytes → Option ℕ
index_of i name [] = none
index_of i name (c ∷ cs) =
    let rest = index_of (suc i) name cs in if bytes_eq c name then some i else rest

abbrev pub found_column : Bytes → Option ℕ → Result Error ℕ
found_column name none = err (Error.key_not_found name)
found_column name (some i) = ok i

-- `keyColumnsByName`; its nil result for no keys is the empty list.
unfoldable pub key_columns_by_name : List Bytes → List Bytes → Result Error (List ℕ)
key_columns_by_name columns [] = ok []
key_columns_by_name columns (name ∷ names) = do
  i ← found_column name (index_of 0 name columns)
  rest ← key_columns_by_name columns names
  ok (i ∷ rest)

-- The loop of `normalizeTargetColumns`: whether the columns are those from `i` on.
unfoldable pub count_up : ℕ → List ℤ → Bool
count_up i [] = true
count_up i (c ∷ cs) = let rest = count_up (suc i) cs in if eq_ℤ c (pos i) then rest else false

-- `normalizeTargetColumns`, where nil is the empty list, as its callers make it.
unfoldable pub normalize_target_columns : List ℤ → ℕ → List ℤ
normalize_target_columns [] count = []
normalize_target_columns (c ∷ cs) count =
    if not (length (c ∷ cs) == count) then c ∷ cs else if count_up 0 (c ∷ cs) then [] else c ∷ cs

-- `properties[key]`
abbrev pub property : List (Bytes × Bytes) → Bytes → Bytes
property properties key = or_empty (find bytes_eq properties key)

-- `strings.EqualFold` of ASCII texts.
unfoldable pub equal_fold : Bytes → Bytes → Bool
equal_fold a b = bytes_eq (to_upper a) (to_upper b)

-- `indexed` of `kvEncoding`
unfoldable pub is_indexed : List (Bytes × Bytes) → Bool
is_indexed properties =
    not (equal_fold (property properties (codes "table.kv.format")) (codes "compacted"))

-- An int32 as its bits.
unfoldable pub bits_of : ℤ → ℕ
bits_of (pos n) = n % 2 ^ 32
bits_of (negsuc n) = 2 ^ 32 - 1 - n % 2 ^ 32
