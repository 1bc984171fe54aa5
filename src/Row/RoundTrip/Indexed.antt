-- ===== src/Row/RoundTrip/Indexed.antt =====
-- The round trip of the indexed format, by recursion on the field type.
use fluss_go_client.Prelude.{
  ℕ, ◌+◌, ◌%◌, ◌^◌, ◌<◌, ◌≡◌, refl, ap, sym, ◌∙◌, true, false, not, ◌&&◌, ltb, le→ltb, ◌==◌,
  if◌then◌else◌, arith, List, [], ◌++◌, length, length-append, length-replicate, take-append,
  drop-append, inl, inr,
}
use fluss_go_client.Result.{Result, ok, ok_injective, reject, map_error, >>=-eq-ok, map_error-eq-ok}
use fluss_go_client.Bytes.{Bytes, le_bytes}
use fluss_go_client.Row.Types.{
  FieldType, FieldPtr, Fields, Error, field_count, is_fixed, validate_schema,
}
use fluss_go_client.Row.Value.{Value, Items, Numbers, is_nil, item_count, as_items}
use fluss_go_client.Row.Encode.{
  null_bits_size, set_null_bit, frame_row, empty_null_bits, deref, encode_value, encode_ptr,
  encode_fields, encode_row,
}
use fluss_go_client.Row.Decode.{unframe_row, read_lengths}
use fluss_go_client.Row.Read.{decode_value, decode_ptr, decode_fields, decode_row}
use fluss_go_client.Row.RoundTrip.Typed.{
  Typed, TypedPtr, TypedFields, Nullable, AllItems, AllItems-map,
}
use fluss_go_client.Row.RoundTrip.Scalars.{decode_scalar-encode_scalar, length_fixed}
use fluss_go_client.Row.RoundTrip.Collections.{
  ReadsBack, decode-encode_length_prefixed_collection, length_block,
}
use fluss_go_client.Row.RoundTrip.Rows.{
  Loop, FieldReadsBack, LoopReadsBack, LoopReadsBack-end, LoopReadsBack-nil, LoopReadsBack-value,
  IsClear, IsClear-skip, IsClear-set, IsClear-empty,
}

-- What a framed row says: the schema is valid, the values fit its length, and the loop ended.
record Framed (fs : Fields) (vs : Items) (bs : Bytes) (loop : Result Error Loop) : Type 0 where
  out : Loop
  loop_ok : loop ≡ ok out
  valid : validate_schema fs ≡ ok tt
  count : item_count vs ≡ field_count fs
  bytes : bs ≡ out.0 ++ (out.1 ++ out.2)

same_count : (a b : ℕ) → reject (not (a == b)) Error.value_count ≡ ok tt → a ≡ b
same_count a b h = ground arith

frame_row-eq-ok :
    (fs : Fields) (vs : Items) (bs : Bytes) (loop : Result Error Loop)
    → frame_row fs vs true loop ≡ ok bs
    → Framed fs vs bs loop
unfolding frame_row
frame_row-eq-ok fs vs bs loop e =
    let (u, valid, e1) = >>=-eq-ok (validate_schema fs) _ e in
    let (u', counted, e2) =
      >>=-eq-ok (reject (not (item_count vs == field_count fs)) Error.value_count) _ e1 in
    let (out, done, e3) = >>=-eq-ok loop _ e2 in
    record {
      out = out;
      loop_ok = done;
      valid = valid;
      count = same_count _ _ counted;
      bytes = sym (ok_injective e3);
    }

unframe_row_ok :
    (fs : Fields) (vs : Items) (a l p : Bytes) (ns : List ℕ)
    → validate_schema fs ≡ ok tt
    → length a ≡ null_bits_size (field_count fs)
    → read_lengths fs 0 a (l ++ p) ≡ ok (ns, p)
    → decode_fields fs true 0 a ns p ≡ ok vs
    → unframe_row fs (a ++ (l ++ p)) true (λ bits ns rest. decode_fields fs true 0 bits ns rest)
      ≡ ok vs
unfolding unframe_row
unframe_row_ok fs vs a l p ns valid size read dec =
    let long : ltb (length (a ++ (l ++ p))) (length a) ≡ false =
      le→ltb _ (length a) (omega (arith, length-append a (l ++ p))) in
    rw valid (
      rw (← size)
        (rw long (rw (take-append a (l ++ p)) (rw (drop-append a (l ++ p)) (rw read dec)))))

-- A framed row is read back, if its loop is.
unframe-frame :
    (fs : Fields) (vs : Items) (bs : Bytes) (loop : Result Error Loop)
    → ((out : Loop)
        → loop ≡ ok out
        → length out.2 < 2 ^ 32
        → LoopReadsBack fs vs 0 (empty_null_bits vs) [] [] out)
    → frame_row fs vs true loop ≡ ok bs
    → length bs < 2 ^ 32
    → unframe_row fs bs true (λ bits ns rest. decode_fields fs true 0 bits ns rest) ≡ ok vs
unframe-frame fs vs bs loop back e h =
    let f = frame_row-eq-ok fs vs bs loop e in
    let r =
      back f.out f.loop_ok
        (omega (arith, ap length f.bytes, length_block f.out.0 f.out.1 f.out.2)) in
    let size : length f.out.0 ≡ null_bits_size (field_count fs) =
      r.bits_length
      ∙ length-replicate (null_bits_size (item_count vs)) 0
      ∙ ap null_bits_size f.count in
    let shape : bs ≡ f.out.0 ++ (r.more_lengths ++ r.more_payload) =
      f.bytes ∙ rw r.lengths_eq (rw r.payload_eq refl) in
    rw shape (
      unframe_row_ok fs vs f.out.0 r.more_lengths r.more_payload r.ns f.valid size
        (r.lengths_read r.more_payload) r.payload_read)

array-ReadsBack :
    (num : Numbers) (p : FieldPtr) (vs : Items)
    → AllItems (Nullable (ReadsBack (λ x. encode_ptr num p x true) (λ b. decode_ptr p b true))) vs
    → FieldReadsBack num (FieldType.array p) (Value.items vs)
unfolding encode_value decode_value as_items deref
array-ReadsBack num FieldPtr.nil vs t = record { decodes = λ bs e h. cc; sized = λ bs x e. cc }
array-ReadsBack num (FieldPtr.ptr f) vs t = record {
  decodes = λ bs e h. rw (
      decode-encode_length_prefixed_collection (λ x. encode_ptr num (FieldPtr.ptr f) x true)
        (λ b. decode_ptr (FieldPtr.ptr f) b true) vs bs t e h);
  sized = λ bs x e. unfold is_fixed in cc;
}

row_not_fixed : (fs : Fields) → is_fixed (FieldType.row fs) ≡ false
unfolding is_fixed
row_not_fixed fs = refl

encode_fields_value :
    (num : Numbers) (f : FieldType) (fs : Fields) (v : Value) (vs : Items) (i : ℕ)
    (bits lengths payload : Bytes) (out : Loop)
    → is_nil v ≡ false
    → encode_fields num (Fields.field f fs) (Items.item v vs) true i bits lengths payload ≡ ok out
    → (block : Bytes) × (encode_value num f v true ≡ ok block)
      × (encode_fields num fs vs true
            (i + 1)
            bits
            (if true && not (is_fixed f)
              then lengths ++ le_bytes 4 (length block % 2 ^ 32)
              else lengths)
            (payload ++ block)
          ≡ ok out)
unfolding encode_fields
encode_fields_value num f fs v vs i bits lengths payload out n e =
    let (block, e1, e2) =
      >>=-eq-ok (map_error (Error.at_field i) (encode_value num f v true)) _
        (rw (n, encode_fields) at e) in
    (block, map_error-eq-ok (Error.at_field i) (encode_value num f v true) e1, e2)

block_fits :
    (payload block out more : Bytes)
    → out ≡ (payload ++ block) ++ more
    → length out < 2 ^ 32
    → length block < 2 ^ 32
block_fits payload block out more e h =
    omega (arith, ap length e, length-append (payload ++ block) more, length-append payload block)

mutual
  unfolding encode_value decode_value encode_ptr decode_ptr encode_fields item_count as_items

  value-ReadsBack : (num : Numbers) (f : FieldType) (v : Value) → Typed f v → FieldReadsBack num f v
  value-ReadsBack num (FieldType.array p) (Value.items vs) t =
      array-ReadsBack num p vs (AllItems-map (λ v h. ptr-ReadsBack num p v h) vs t)
  value-ReadsBack num (FieldType.array p) _ t = absurd t
  value-ReadsBack num (FieldType.row fs) (Value.items vs) t = record {
    decodes = λ bs e h. rw (
        unframe-frame fs vs bs (encode_fields num fs vs true 0 (empty_null_bits vs) [] [])
          (λ out lo hl.
            fields-ReadsBack num fs vs 0 (empty_null_bits vs) [] [] out t (IsClear-empty vs) lo hl)
          e h);
    sized = λ bs x e. cc (row_not_fixed fs);
  }
  value-ReadsBack num (FieldType.row fs) _ t = absurd t
  value-ReadsBack num (FieldType.map k e) v t = absurd t
  value-ReadsBack num f v t = record {
    decodes = λ bs e h. decode_scalar-encode_scalar num f v bs t e;
    sized = λ bs fixed e. length_fixed num f v bs t fixed e;
  }

  ptr-ReadsBack :
      (num : Numbers) (p : FieldPtr) (v : Value)
      → TypedPtr p v
      → ReadsBack (λ x. encode_ptr num p x true) (λ b. decode_ptr p b true) v
  ptr-ReadsBack num FieldPtr.nil v t = absurd t
  ptr-ReadsBack num (FieldPtr.ptr f) v t = (value-ReadsBack num f v t).decodes

  fields-ReadsBack :
      (num : Numbers) (fs : Fields) (vs : Items) (i : ℕ) (bits lengths payload : Bytes) (out : Loop)
      → TypedFields fs vs
      → IsClear bits i (item_count vs)
      → encode_fields num fs vs true i bits lengths payload ≡ ok out
      → length out.2 < 2 ^ 32
      → LoopReadsBack fs vs i bits lengths payload out
  fields-ReadsBack num Fields.end Items.end i bits lengths payload out t c e h =
      rw (← ok_injective e) (LoopReadsBack-end i bits lengths payload)
  fields-ReadsBack num Fields.end (Items.item v vs) i bits lengths payload out t c e h = absurd t
  fields-ReadsBack num (Fields.field f fs) Items.end i bits lengths payload out t c e h = absurd t
  fields-ReadsBack num (Fields.field f fs) (Items.item v vs) i bits lengths payload out (inl n, ts)
        c e h =
      rw n (
        LoopReadsBack-nil f fs vs i (item_count vs) bits lengths payload out c (
          fields-ReadsBack num fs vs (i + 1) (set_null_bit bits i) lengths payload out ts
            (IsClear-set i (item_count vs) c) (rw n at e) h))
  fields-ReadsBack num (Fields.field f fs) (Items.item v vs) i bits lengths payload out
        (inr (n, t), ts) c e h =
      let (block, e1, e2) = encode_fields_value num f fs v vs i bits lengths payload out n e in
      let lengths' =
        if true && not (is_fixed f)
        then lengths ++ le_bytes 4 (length block % 2 ^ 32)
        else lengths in
      let r =
        fields-ReadsBack num fs vs (i + 1) bits lengths' (payload ++ block) out ts
          (IsClear-skip i (item_count vs) c) e2 h in
      let fits = block_fits payload block out.2 r.more_payload r.payload_eq h in
      let back = value-ReadsBack num f v t in
      LoopReadsBack-value f fs v vs i (item_count vs) bits lengths payload block out c fits
        (back.decodes block e1 fits) (λ fixed. back.sized block fixed e1) r

-- If EncodeIndexed gives fewer than 2^32 bytes for values of their fields' types, DecodeIndexed gives
-- the values back, nils included and arrays and rows nested to any depth. Values of map type and
-- negative decimals of more than 18 digits are not among the typed values.
pub decode_row-encode_row :
    (num : Numbers) (fs : Fields) (vs : Items) (bs : Bytes)
    → TypedFields fs vs
    → encode_row num fs vs true ≡ ok bs
    → length bs < 2 ^ 32
    → decode_row fs bs true ≡ ok vs
unfolding encode_row decode_row
decode_row-encode_row num fs vs bs t e h =
    unframe-frame fs vs bs (encode_fields num fs vs true 0 (empty_null_bits vs) [] [])
      (λ out lo hl.
        fields-ReadsBack num fs vs 0 (empty_null_bits vs) [] [] out t (IsClear-empty vs) lo hl)
      e h
