-- ===== src/Rows/Lookups.antt =====
-- client/row.go: LookupRows and LookupRow.
use fluss_go_client.Prelude.{ℕ, suc, ◌==◌, not, Bool, Option, none, some, List, [], ◌∷◌, length}
use fluss_go_client.Prelude.Int.{ℤ}
use fluss_go_client.Result.{Result, ok, err, ◌>>=◌, ◌>>◌, reject, map_error}
use fluss_go_client.Bytes.{Bytes}
use fluss_go_client.Row.Types.{Fields}
use fluss_go_client.Row.Value.{Items, Numbers}
use fluss_go_client.Row.Batch.{encode_lookup_key}
use fluss_go_client.Metadata.Cache.{TablePath, Cache}
use fluss_go_client.Metadata.TableDescriptor.{TableDescriptor}
use fluss_go_client.Table.Send.{Net, on_ok}
use fluss_go_client.Table.Read.{LookupBucketValues}
use fluss_go_client.Table.Read.Calls.{Reads, lookup}
use fluss_go_client.Rows.{Row, Error}
use fluss_go_client.Rows.Decoding.{decode_lookup_value_payload}
use fluss_go_client.Rows.Encoding.{kv_encoding}

-- The first loop of `LookupRows` at row `i`.
unfoldable pub lookup_keys : Numbers → List ℤ → ℕ → List Row → Result Error (List Bytes)
lookup_keys num columns i [] = ok []
lookup_keys num columns i (row ∷ rows) = do
  key ← map_error (λ e. Error.key_of i) (encode_lookup_key num row.schema row.values columns)
  keys ← lookup_keys num columns (suc i) rows
  ok (key ∷ keys)

-- Its second loop: a nil row for a nil value.
unfoldable pub looked_up_rows :
    Fields → Bool → ℕ → List (Option Bytes) → Result Error (List (Option Items))
looked_up_rows fs indexed i [] = ok []
looked_up_rows fs indexed i (none ∷ values) = do
  rows ← looked_up_rows fs indexed (suc i) values
  ok (none ∷ rows)
looked_up_rows fs indexed i (some payload ∷ values) = do
  row ← map_error (λ e. Error.value_of i) (decode_lookup_value_payload fs payload indexed)
  rows ← looked_up_rows fs indexed (suc i) values
  ok (some row ∷ rows)

-- What LookupRows makes of the results.
unfoldable pub rows_of_results :
    Fields → Bool → ℕ → List LookupBucketValues → Result Error (List (Option Items))
rows_of_results fs indexed count [] = err (Error.result_count 0)
rows_of_results fs indexed count (result ∷ []) = do
  reject (not (length result.values == count)) (Error.value_count (length result.values))
  looked_up_rows fs indexed 0 result.values
rows_of_results fs indexed count (result ∷ (second ∷ more)) =
    err (Error.result_count (length (result ∷ (second ∷ more))))

module _ {W : Type 0} (net : Net W) (endpoint : Bytes) (path : TablePath) (calls : Reads W)
    (unmarshal : Bytes → Option TableDescriptor) (num : Numbers) where
  abbrev State : Type 0
  State = W × Cache

  unfoldable pub lookup_rows :
      State → ℤ → Fields → List Row → List ℤ → State × Result Error (List (Option Items))
  lookup_rows s bucket_id fs rows columns =
      let (s1, found) = kv_encoding net endpoint path unmarshal num s in
      on_ok s1 found (λ e. on_ok s1 (lookup_keys num columns 0 rows) (λ keys.
        let (s2, results) =
          lookup net endpoint path calls s1
            (record { partition_id = none; bucket_id = bucket_id; keys = keys } ∷ []) none none
            none in
        (s2, map_error Error.call results >>= rows_of_results fs e.indexed (length rows))))

  abbrev only_row : List (Option Items) → Result Error (Option Items)
  only_row [] = err (Error.result_count 0)
  only_row (row ∷ []) = ok row
  only_row (row ∷ (second ∷ more)) = err (Error.result_count (length (row ∷ (second ∷ more))))

  unfoldable pub lookup_row :
      State → ℤ → Fields → Row → List ℤ → State × Result Error (Option Items)
  lookup_row s bucket_id fs row columns =
      let (s', rows) = lookup_rows s bucket_id fs (row ∷ []) columns in (s', rows >>= only_row)
