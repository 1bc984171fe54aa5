-- ===== src/Rows/Stored.antt =====
-- client/row.go: LookupRows gives back rows as they were encoded.
use fluss_go_client.Prelude.{
  ℕ, suc, ◌^◌, ◌<◌, ◌==◌, ltb, ◌≡◌, refl, ap, true, false, Option, none, some, List, [], ◌∷◌, ◌++◌,
  length, drop, arith, ==_iff,
}
use fluss_go_client.Prelude.Int.{ℤ}
use fluss_go_client.Result.{ok}
use fluss_go_client.Bytes.{Bytes, le_bytes}
use fluss_go_client.Row.Types.{Fields}
use fluss_go_client.Row.Value.{Items, Numbers}
use fluss_go_client.Row.Encode.{encode_row}
use fluss_go_client.Row.RoundTrip.Typed.{TypedFields}
use fluss_go_client.Row.RoundTrip.Indexed.{decode_row-encode_row}
use fluss_go_client.Metadata.Cache.{TablePath, Cache}
use fluss_go_client.Metadata.TableDescriptor.{TableDescriptor}
use fluss_go_client.Table.Send.{Net}
use fluss_go_client.Table.Read.{LookupBucketValues}
use fluss_go_client.Table.Read.Calls.{Reads, lookup}
use fluss_go_client.Rows.{Row}
use fluss_go_client.Rows.Decoding.{decode_lookup_value_payload}
use fluss_go_client.Rows.Encoding.{KvEncoding, kv_encoding}
use fluss_go_client.Rows.Lookups.{lookup_keys, looked_up_rows, rows_of_results, lookup_rows}

-- A schema id and a typed row in the indexed format.
pub record IsStored (num : Numbers) (fs : Fields) (payload : Bytes) (row : Items) : Type 0 where
  pub id : ℕ
  pub bytes : Bytes
  pub made : payload ≡ le_bytes 2 id ++ bytes
  pub typed : TypedFields fs row
  pub encoded : encode_row num fs row true ≡ ok bytes
  pub short : length bytes < 2 ^ 32

-- Values that are absent, or stored rows.
abbrev pub AreStored : Numbers → Fields → List (Option Bytes) → List (Option Items) → Type 0
AreStored num fs [] [] = Unit {0}
AreStored num fs [] (row ∷ rows) = ⊥
AreStored num fs (value ∷ values) [] = ⊥
AreStored num fs (none ∷ values) (none ∷ rows) = AreStored num fs values rows
AreStored num fs (none ∷ values) (some row ∷ rows) = ⊥
AreStored num fs (some payload ∷ values) (none ∷ rows) = ⊥
AreStored num fs (some payload ∷ values) (some row ∷ rows) =
    IsStored num fs payload row × AreStored num fs values rows

decode_stored :
    (num : Numbers) (fs : Fields) (payload : Bytes) (row : Items)
    → IsStored num fs payload row
    → decode_lookup_value_payload fs payload true ≡ ok row
unfolding decode_lookup_value_payload
decode_stored num fs payload row h =
    let enough : ltb (length (le_bytes 2 h.id ++ h.bytes)) 2 ≡ false =
      unfold le_bytes in ground arith in
    let behind : drop 2 (le_bytes 2 h.id ++ h.bytes) ≡ h.bytes = unfold le_bytes in refl in
    rw h.made (
      rw enough
        (rw behind (rw (decode_row-encode_row num fs row h.bytes h.typed h.encoded h.short) refl)))

looked_up_rows-AreStored :
    (num : Numbers) (fs : Fields) (i : ℕ) (values : List (Option Bytes))
    (rows : List (Option Items))
    → AreStored num fs values rows
    → looked_up_rows fs true i values ≡ ok rows
unfolding looked_up_rows
looked_up_rows-AreStored num fs i [] [] h = refl
looked_up_rows-AreStored num fs i [] (row ∷ rows) h = elim h [ ]
looked_up_rows-AreStored num fs i (value ∷ values) [] h = elim h [ ]
looked_up_rows-AreStored num fs i (none ∷ values) (none ∷ rows) h =
    rw (looked_up_rows-AreStored num fs (suc i) values rows h) refl
looked_up_rows-AreStored num fs i (none ∷ values) (some row ∷ rows) h = elim h [ ]
looked_up_rows-AreStored num fs i (some payload ∷ values) (none ∷ rows) h = elim h [ ]
looked_up_rows-AreStored num fs i (some payload ∷ values) (some row ∷ rows) h =
    rw (decode_stored num fs payload row h.0)
      (rw (looked_up_rows-AreStored num fs (suc i) values rows h.1) refl)

-- If the table has the indexed format, the keys of the rows encode, and Lookup gives one result with a
-- value for each key, which is absent or a schema id of two bytes in front of an encoded row of typed
-- values below 2^32 bytes, LookupRows returns those rows in order, with nil for an absent one.
pub lookup_rows-AreStored :
    {W : Type 0} (net : Net W) (endpoint : Bytes) (path : TablePath) (calls : Reads W)
    (unmarshal : Bytes → Option TableDescriptor) (num : Numbers) (s s1 s2 : W × Cache)
    (bucket_id : ℤ) (fs : Fields) (asked : List Row) (columns : List ℤ) (e : KvEncoding)
    (keys : List Bytes) (result : LookupBucketValues) (rows : List (Option Items))
    → kv_encoding net endpoint path unmarshal num s ≡ (s1, ok e)
    → e.indexed ≡ true
    → lookup_keys num columns 0 asked ≡ ok keys
    → lookup net endpoint path calls s1
        (record { partition_id = none; bucket_id = bucket_id; keys = keys } ∷ [])
        none
        none
        none
      ≡ (s2, ok (result ∷ []))
    → length result.values ≡ length asked
    → AreStored num fs result.values rows
    → lookup_rows net endpoint path calls unmarshal num s bucket_id fs asked columns ≡ (s2, ok rows)
unfolding lookup_rows rows_of_results
lookup_rows-AreStored net endpoint path calls unmarshal num s s1 s2 bucket_id fs asked columns e
      keys result rows opened indexed keyed answered same stored =
    let count : (length result.values == length asked) ≡ true =
      (==_iff (length result.values) (length asked)).1 same in
    rw opened (
      rw keyed (
        rw answered (
          rw count (
            rw indexed
              (ap (λ x. (s2, x)) (looked_up_rows-AreStored num fs 0 result.values rows stored))))))
