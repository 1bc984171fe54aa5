-- ===== src/Row/Read.antt =====
-- row.go: the functions of decoding that call one another, `decodeValue` and `decodeRow`. They recur
-- on the field type.
use fluss_go_client.Prelude.{ℕ, ◌+◌, Bool, true, false, List}
use fluss_go_client.Prelude.{drop}
use fluss_go_client.Result.{Result, ok, panic, ◌>>=◌, ◌>>◌}
use fluss_go_client.Bytes.{Bytes}
use fluss_go_client.Row.Types.{FieldType, FieldPtr, Fields, Error}
use fluss_go_client.Row.Value.{Value, Items}
use fluss_go_client.Row.Encode.{deref}
use fluss_go_client.Row.Decode.{
  null_bit, decode_scalar, decode_length_prefixed_collection, unframe_row, next_length, take_field,
}
use fluss_go_client.Row.MapEntries.{decode_map}

unfoldable mutual
  pub decode_value : FieldType → Bytes → Bool → Result Error Value
  decode_value (FieldType.array p) payload indexed = do
    deref p
    vs ← decode_length_prefixed_collection (λ b. decode_ptr p b true) payload
    ok (Value.items vs)
  decode_value (FieldType.map k e) payload indexed = do
    es ← decode_map (λ b. decode_ptr k b true) (λ b. decode_ptr e b true) payload
    ok (Value.entries es)
  decode_value (FieldType.row fs) payload indexed = do
    vs ← unframe_row fs payload indexed (λ bits ns rest. decode_fields fs indexed 0 bits ns rest)
    ok (Value.items vs)
  decode_value f payload indexed = decode_scalar f payload indexed

  pub decode_ptr : FieldPtr → Bytes → Bool → Result Error Value
  decode_ptr FieldPtr.nil payload indexed = panic
  decode_ptr (FieldPtr.ptr t) payload indexed = decode_value t payload indexed

  -- The second loop of `decodeRow` at field `i`.
  pub decode_fields : Fields → Bool → ℕ → Bytes → List ℕ → Bytes → Result Error Items
  decode_fields Fields.end indexed i null_bits ns rest = ok Items.end
  decode_fields (Fields.field f fs) indexed i null_bits ns rest = elim (null_bit null_bits i) [
    | true ↦ do
      vs ← decode_fields fs indexed (i + 1) null_bits (drop 1 ns) rest
      ok (Items.item Value.nil vs)
    | false ↦ do
      (v, rest') ← take_field f indexed (next_length ns) rest (λ b. decode_value f b indexed)
      vs ← decode_fields fs indexed (i + 1) null_bits (drop 1 ns) rest'
      ok (Items.item v vs)
  ]

unfoldable pub decode_row : Fields → Bytes → Bool → Result Error Items
decode_row fs payload indexed =
    unframe_row fs payload indexed (λ bits ns rest. decode_fields fs indexed 0 bits ns rest)
