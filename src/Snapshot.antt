-- ===== src/Snapshot.antt =====
-- internal/snapshot/decode.go and reader.go: rows from the values of a key-value snapshot. The database
-- that holds the values, and the function that loads a plan, are parameters.
pub mod Projection
pub mod Plans
pub mod Stored
mod Runs
use fluss_go_client.Prelude.{
  ℕ, zero, suc, ◌+◌, ◌^◌, ltb, ◌==◌, Bool, true, false, ◌&&◌, ◌||◌, Option, none, some,
  if◌then◌else◌, List, [], ◌∷◌, length, drop,
}
use fluss_go_client.Prelude.Maps.{find, put}
use fluss_go_client.Result.{Result, ok, err, panic, ◌>>=◌, ◌>>◌, reject, map_error}
use fluss_go_client.Bytes.{Bytes, le_uint}
use fluss_go_client.Bytes.Equal.{bytes_eq}
use fluss_go_client.Row.Types.{Fields}
use fluss_go_client.Row.Types
use fluss_go_client.Row.Value.{Value, Items}
use fluss_go_client.Row.Read.{decode_row}

pub record DecodePlan : Type 0 where
  pub decode_schema : Fields
  pub target_schema : Fields
  pub source_columns : List Bytes
  pub target_columns : List Bytes

-- The errors, without the texts. `E` are those of loading a plan.
pub data Error (E : Type 0) : Type 0 where
  value_too_short iteration : Error E
  load_failed : ℕ → E → Error E
  not_available : ℕ → Error E
  bad_row : Types.Error → Error E

unfoldable pub same_columns : List Bytes → List Bytes → Bool
same_columns [] [] = true
same_columns [] (t ∷ ts) = false
same_columns (s ∷ ss) [] = false
same_columns (s ∷ ss) (t ∷ ts) = bytes_eq s t && same_columns ss ts

-- `row[i]`, or nothing out of range.
unfoldable pub item_at : Items → ℕ → Option Value
item_at Items.end i = none
item_at (Items.item v vs) zero = some v
item_at (Items.item v vs) (suc i) = item_at vs i

-- `indexByName`: a later column replaces an earlier one of its name.
unfoldable pub index_by_name : ℕ → List Bytes → List (Bytes × ℕ) → List (Bytes × ℕ)
index_by_name i [] index = index
index_by_name i (name ∷ names) index = index_by_name (i + 1) names (put bytes_eq index name i)

abbrev pub value_at : Items → Option ℕ → Value
value_at row none = Value.nil
value_at row (some i) = elim (item_at row i) [ none ↦ Value.nil | some v ↦ v ]

-- The second loop of `projectRow`.
unfoldable pub project_loop : Items → List (Bytes × ℕ) → List Bytes → Items
project_loop row index [] = Items.end
project_loop row index (name ∷ names) =
    Items.item (value_at row (find bytes_eq index name)) (project_loop row index names)

unfoldable pub project_row : Items → List Bytes → List Bytes → Items
project_row row source target = project_loop row (index_by_name 0 source []) target

abbrev pub is_empty : List Bytes → Bool
is_empty [] = true
is_empty (x ∷ xs) = false

-- `decodeValue` behind the lookup of the plan.
unfoldable pub decode_with : {E : Type 0} → DecodePlan → Bool → Bytes → Result (Error E) Items
decode_with plan indexed payload = do
  row ← map_error Error.bad_row (decode_row plan.decode_schema payload indexed)
  ok (
      if is_empty plan.target_columns || same_columns plan.source_columns plan.target_columns
      then row
      else project_row row plan.source_columns plan.target_columns)

abbrev pub Plans : Type 0
Plans = List (ℕ × DecodePlan)

abbrev pub same_id : ℕ → ℕ → Bool
same_id a b = a == b

-- `loadPlan`, which may be nil, and `indexed`.
pub record Reader (E : Type 0) : Type 0 where
  pub load_plan : Option (ℕ → Result E DecodePlan)
  pub indexed : Bool

abbrev pub keep_loaded :
    {E : Type 0} → Plans → ℕ → Result E DecodePlan → Plans × Result E (Option DecodePlan)
keep_loaded plans id panic = (plans, panic)
keep_loaded plans id (err e) = (plans, err e)
keep_loaded plans id (ok plan) = (put same_id plans id plan, ok (some plan))

abbrev pub load :
    {E : Type 0}
    → Option (ℕ → Result E DecodePlan)
    → Plans
    → ℕ
    → Plans × Result E (Option DecodePlan)
load none plans id = (plans, ok none)
load (some load_plan) plans id = keep_loaded plans id (load_plan id)

abbrev pub lookup_found :
    {E : Type 0} → Reader E → Plans → ℕ → Option DecodePlan → Plans × Result E (Option DecodePlan)
lookup_found r plans id (some plan) = (plans, ok (some plan))
lookup_found r plans id none = load r.load_plan plans id

-- `lookupPlan`: the plans after it, and what it returns.
unfoldable pub lookup_plan :
    {E : Type 0} → Reader E → Plans → ℕ → Plans × Result E (Option DecodePlan)
lookup_plan r plans id = lookup_found r plans id (find same_id plans id)

abbrev pub available : {E : Type 0} → ℕ → Option DecodePlan → Result (Error E) DecodePlan
available id none = err (Error.not_available id)
available id (some plan) = ok plan

-- `decodeValue` behind the read of the schema id, over what the lookup returned.
unfoldable pub decode_found :
    {E : Type 0} → Bool → ℕ → Result E (Option DecodePlan) → Bytes → Result (Error E) Items
decode_found indexed id found value = do
  o ← map_error (Error.load_failed id) found
  plan ← available id o
  decode_with plan indexed (drop 2 value)

-- `decodeValue` with `lookupPlan`.
unfoldable pub decode_value :
    {E : Type 0} → Reader E → Plans → Bytes → Plans × Result (Error E) Items
decode_value r plans value = elim (ltb (length value) 2) [
  | true ↦ (plans, err Error.value_too_short)
  | false ↦
      let id = le_uint 2 value in
      let (plans', found) = lookup_plan r plans id in
      (plans', decode_found r.indexed id found value)
]

-- A round of `ReadAll`, over what the rounds behind it give: it returns at an error.
abbrev pub read_on :
    {E : Type 0}
    → Plans
    → Result (Error E) Items
    → Plans × Result (Error E) (List Items)
    → Plans × Result (Error E) (List Items)
read_on plans panic rest = (plans, panic)
read_on plans (err e) rest = (plans, err e)
read_on plans (ok items) (plans', rows) = (plans', rows >>= λ xs. ok (items ∷ xs))

-- `ReadAll` over the values that the iterator gives and whether it ends in an error.
unfoldable pub read_all :
    {E : Type 0} → Reader E → Plans → Bool → List Bytes → Plans × Result (Error E) (List Items)
read_all r plans failed [] = (plans, reject failed Error.iteration >> ok [])
read_all r plans failed (value ∷ values) =
    let (plans', row) = decode_value r plans value in
    read_on plans' row (read_all r plans' failed values)
