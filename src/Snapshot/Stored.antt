-- ===== src/Snapshot/Stored.antt =====
-- decode.go: a stored value, its schema id in front of a row that EncodeIndexed made.
use fluss_go_client.Prelude.{
  ℕ, ◌^◌, ◌<◌, ◌≡◌, refl, ◌∙◌, Bool, true, false, ◌||◌, some, if◌then◌else◌, ltb, ◌++◌, length,
  drop, arith,
}
use fluss_go_client.Result.{ok}
use fluss_go_client.Bytes.{Bytes, le_bytes, le_uint}
use fluss_go_client.Bytes.Fixed.{le_uint-le_bytes}
use fluss_go_client.Row.Value.{Items, Numbers}
use fluss_go_client.Row.Encode.{encode_row}
use fluss_go_client.Row.Read.{decode_row}
use fluss_go_client.Row.RoundTrip.Typed.{TypedFields}
use fluss_go_client.Row.RoundTrip.Indexed.{decode_row-encode_row}
use fluss_go_client.Snapshot.{
  DecodePlan, Plans, Reader, is_empty, same_columns, lookup_plan, decode_with, decode_found,
  decode_value,
}
use fluss_go_client.Snapshot.Projection.{values_by_name, project_row-values_by_name}

-- A row under the columns that a plan asks for.
unfoldable pub requested : DecodePlan → Items → Items
requested plan row =
    if is_empty plan.target_columns || same_columns plan.source_columns plan.target_columns
    then row
    else values_by_name plan.source_columns row plan.target_columns

requested_row :
    (plan : DecodePlan) (indexed : Bool) (row : Items) (bs : Bytes) {E : Type 0}
    → decode_row plan.decode_schema bs indexed ≡ ok row
    → decode_with {E = E} plan indexed bs ≡ ok (requested plan row)
unfolding decode_with requested
requested_row plan indexed row bs h =
    rw h (rw (project_row-values_by_name row plan.source_columns plan.target_columns) refl)

decode_value_lem :
    {E : Type 0} (r : Reader E) (plans : Plans) (value : Bytes) (id : ℕ)
    → ltb (length value) 2 ≡ false
    → le_uint 2 value ≡ id
    → (decode_value r plans value).1 ≡ decode_found r.indexed id (lookup_plan r plans id).1 value
unfolding decode_value decode_found
decode_value_lem r plans value id enough stored = rw (enough, decode_value) (rw stored refl)

-- For a value made of a schema id of 16 bits and a row of typed values in the indexed format below
-- 2^32 bytes, a reader of that format that has or loads a plan with the row's schema gives the row
-- back, under the columns that the plan asks for.
pub decode_value-encode_row :
    {E : Type 0} (r : Reader E) (plans : Plans) (num : Numbers) (id : ℕ) (plan : DecodePlan)
    (row : Items) (bs : Bytes)
    → id < 2 ^ 16
    → r.indexed ≡ true
    → (lookup_plan r plans id).1 ≡ ok (some plan)
    → TypedFields plan.decode_schema row
    → encode_row num plan.decode_schema row true ≡ ok bs
    → length bs < 2 ^ 32
    → (decode_value r plans (le_bytes 2 id ++ bs)).1 ≡ ok (requested plan row)
unfolding decode_found
decode_value-encode_row r plans num id plan row bs small indexed found typed encoded short =
    let value = le_bytes 2 id ++ bs in
    let stored : le_uint 2 value ≡ id = le_uint-le_bytes 2 id bs (omega (arith, small)) in
    let row_back = decode_row-encode_row num plan.decode_schema row bs typed encoded short in
    let enough : ltb (length value) 2 ≡ false = unfold le_bytes in ground arith in
    let payload : drop 2 value ≡ bs = unfold le_bytes in refl in
    decode_value_lem r plans value id enough stored
    ∙ rw found (rw payload (rw indexed (requested_row plan true row bs row_back)))
