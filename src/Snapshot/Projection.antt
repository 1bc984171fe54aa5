-- ===== src/Snapshot/Projection.antt =====
-- decode.go: projectRow.
use fluss_go_client.Prelude.{
  ℕ, zero, suc, ◌+◌, ◌≡◌, refl, ◌∙◌, Bool, true, false, Option, none, some, if◌then◌else◌, List, [],
  ◌∷◌, arith,
}
use fluss_go_client.Prelude.Maps.{find, put, find-put}
use fluss_go_client.Bytes.{Bytes}
use fluss_go_client.Bytes.Equal.{bytes_eq, bytes_eq_sound, bytes_eq_refl}
use fluss_go_client.Row.Value.{Value, Items}
use fluss_go_client.Snapshot.{item_at, index_by_name, value_at, project_loop, project_row}

abbrev head_or_nil : Items → Value
head_or_nil Items.end = Value.nil
head_or_nil (Items.item v vs) = v

abbrev tail_items : Items → Items
tail_items Items.end = Items.end
tail_items (Items.item v vs) = vs

-- A reference: the value of the last column with a name; nil where the row is too short.
unfoldable pub last_value : List Bytes → Items → Bytes → Option Value
last_value [] row name = none
last_value (n ∷ ns) row name = elim (last_value ns (tail_items row) name) [
  | some v ↦ some v
  | none ↦ if bytes_eq n name then some (head_or_nil row) else none
]

abbrev or_else : Option Value → Value → Value
or_else none d = d
or_else (some v) d = v

unfoldable pub values_by_name : List Bytes → Items → List Bytes → Items
values_by_name source row [] = Items.end
values_by_name source row (name ∷ names) =
    Items.item (or_else (last_value source row name) Value.nil) (values_by_name source row names)

unfoldable skip_items : ℕ → Items → Items
skip_items zero row = row
skip_items (suc i) row = skip_items i (tail_items row)

value_at-skip_items : (i : ℕ) (row : Items) → value_at row (some i) ≡ head_or_nil (skip_items i row)
unfolding item_at skip_items
value_at-skip_items zero Items.end = refl
value_at-skip_items zero (Items.item v vs) = refl
value_at-skip_items (suc i) Items.end = value_at-skip_items i Items.end
value_at-skip_items (suc i) (Items.item v vs) = value_at-skip_items i vs

tail-skip_items : (i : ℕ) (row : Items) → skip_items (i + 1) row ≡ tail_items (skip_items i row)
unfolding skip_items
tail-skip_items zero row = refl
tail-skip_items (suc i) row =
    let e : suc i + 1 ≡ suc (i + 1) = omega arith in rw e (tail-skip_items i (tail_items row))

last_wins :
    (t : Bool) (o : Option Value) (row : Items) (i : ℕ) (here : Value) (found : Option ℕ)
    → value_at row (some i) ≡ here
    → or_else o (value_at row (if t then some i else found))
      ≡ or_else
          (elim o [ some v ↦ some v | none ↦ if t then some here else none ])
          (value_at row found)
last_wins t (some v) row i here found h = refl
last_wins true none row i here found h = h
last_wins false none row i here found h = refl

indexed_value :
    (i : ℕ) (names : List Bytes) (index : List (Bytes × ℕ)) (row : Items) (name : Bytes)
    → value_at row (find bytes_eq (index_by_name i names index) name)
      ≡ or_else (last_value names (skip_items i row) name) (value_at row (find bytes_eq index name))
unfolding index_by_name last_value
indexed_value i [] index row name = refl
indexed_value i (n ∷ names) index row name =
    let here = find-put bytes_eq bytes_eq_sound bytes_eq_refl index n i name in
    let rest = indexed_value (i + 1) names (put bytes_eq index n i) row name in
    rest
    ∙ rw (tail-skip_items i row) (
        rw here (
          last_wins (bytes_eq n name) (last_value names (tail_items (skip_items i row)) name) row i
            (head_or_nil (skip_items i row)) (find bytes_eq index name)
            (value_at-skip_items i row)))

project_loop-values :
    (source : List Bytes) (row : Items) (target : List Bytes)
    → project_loop row (index_by_name 0 source []) target ≡ values_by_name source row target
unfolding project_loop values_by_name
project_loop-values source row [] = refl
project_loop-values source row (name ∷ names) =
    let first : value_at row (find bytes_eq (index_by_name 0 source []) name)
        ≡ or_else (last_value source row name) Value.nil =
      indexed_value 0 source [] row name ∙ unfold find skip_items in refl in
    rw first (rw (project_loop-values source row names) refl)

-- projectRow, with its map of names to positions, gives at each target column the value of the last
-- source column with that name, and nil where there is none or the row is too short.
pub project_row-values_by_name :
    (row : Items) (source target : List Bytes)
    → project_row row source target ≡ values_by_name source row target
unfolding project_row
project_row-values_by_name row source target = project_loop-values source row target
