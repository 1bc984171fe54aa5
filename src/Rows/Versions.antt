-- ===== src/Rows/Versions.antt =====
-- client/row.go: SnapshotScanRows of values that were written under any schemas of the table.
use fluss_go_client.Prelude.{
  ℕ, ◌^◌, ◌<◌, ◌≡◌, refl, ◌∙◌, true, false, some, List, [], ◌∷◌, ◌++◌, length,
}
use fluss_go_client.Result.{ok}
use fluss_go_client.Bytes.{Bytes, le_bytes}
use fluss_go_client.Row.Value.{Items, Numbers}
use fluss_go_client.Row.Encode.{encode_row}
use fluss_go_client.Row.RoundTrip.Typed.{TypedFields}
use fluss_go_client.Snapshot.{DecodePlan, Plans, Reader, lookup_plan, decode_value, read_all}
use fluss_go_client.Snapshot.Plans.{read_each, read_all-read_each}
use fluss_go_client.Snapshot.Stored.{requested, decode_value-encode_row}

-- A value whose schema the reader knows or can load, and the row that it holds under the target columns.
pub record IsVersion {E : Type 0} (r : Reader E) (plans : Plans) (num : Numbers) (value : Bytes)
    (out : Items) : Type 0 where
  pub id : ℕ
  pub plan : DecodePlan
  pub row : Items
  pub bytes : Bytes
  pub small : id < 2 ^ 16
  pub found : (lookup_plan r plans id).1 ≡ ok (some plan)
  pub made : value ≡ le_bytes 2 id ++ bytes
  pub typed : TypedFields plan.decode_schema row
  pub encoded : encode_row num plan.decode_schema row true ≡ ok bytes
  pub short : length bytes < 2 ^ 32
  pub asked : requested plan row ≡ out

pub data AreVersions {E : Type 0} (r : Reader E) (plans : Plans) (num : Numbers)
    : List Bytes → List Items → Type 0 where
  stop : AreVersions r plans num [] []
  next :
      (value : Bytes) (out : Items) (values : List Bytes) (rows : List Items)
      → IsVersion r plans num value out
      → AreVersions r plans num values rows
      → AreVersions r plans num (value ∷ values) (out ∷ rows)

module _ {E : Type 0} (r : Reader E) (plans : Plans) (num : Numbers)
    (indexed : r.indexed ≡ true) where
  decode_version :
      (value : Bytes) (out : Items)
      → IsVersion r plans num value out
      → (decode_value r plans value).1 ≡ ok out
  decode_version value out v = rw v.made (
      decode_value-encode_row r plans num v.id v.plan v.row v.bytes v.small indexed v.found v.typed
        v.encoded v.short
      ∙ rw v.asked refl)

  read_each-AreVersions :
      (values : List Bytes) (rows : List Items)
      → AreVersions r plans num values rows
      → read_each r plans false values ≡ ok rows
  unfolding read_each
  read_each-AreVersions _ _ stop = refl
  read_each-AreVersions _ _ (next value out values rows v rest) =
      rw (decode_version value out v) (rw (read_each-AreVersions values rows rest) refl)

  -- ReadAll gives each row under the target columns, whatever schema it was written under.
  pub read_all-AreVersions :
      (values : List Bytes) (rows : List Items)
      → AreVersions r plans num values rows
      → (read_all r plans false values).1 ≡ ok rows
  read_all-AreVersions values rows h =
      read_all-read_each r plans false values ∙ read_each-AreVersions values rows h
