-- ===== src/Row/RoundTrip/Collections.antt =====
-- row.go: encodeLengthPrefixedCollection and decodeLengthPrefixedCollection, item by item.
use fluss_go_client.Prelude.{
  ℕ, suc, ◌+◌, ◌%◌, ◌^◌, ◌≤◌, ◌<◌, ◌≡◌, refl, ap, sym, ◌∙◌, false, ltb, le→ltb, arith, [], ◌∷◌,
  ◌++◌, append_assoc, append-nil, length, length-append, take-append, drop-append, inl, inr,
}
use fluss_go_client.Result.{Result, ok, ok_injective, >>=-eq-ok}
use fluss_go_client.Bytes.{Bytes, le_bytes}
use fluss_go_client.Bytes.Fixed.{length-le_bytes, le_uint-le_bytes, drop_bytes}
use fluss_go_client.Row.Types.{Error}
use fluss_go_client.Row.Value.{Value, Items, is_nil, item_count}
use fluss_go_client.Row.Encode.{
  encode_generic_field, encode_items, encode_length_prefixed_collection,
}
use fluss_go_client.Row.Decode.{
  decode_generic_field, read_block, decode_items, decode_length_prefixed_collection,
}
use fluss_go_client.Row.RoundTrip.Typed.{Nullable, AllItems}

-- A block with its length in front is taken off whatever follows it.
pub read_block-append :
    (block rest : Bytes)
    → length block < 2 ^ 32
    → read_block (le_bytes 4 (length block % 2 ^ 32) ++ (block ++ rest)) ≡ ok (block, rest)
unfolding read_block
read_block-append block rest h =
    let n = length block % 2 ^ 32 in
    let e : n ≡ length block = omega arith in
    ground (
      arith,
      e,
      length-append (le_bytes 4 n) (block ++ rest),
      length-append block rest,
      length-le_bytes 4 n,
      le_uint-le_bytes 4 n (block ++ rest) (omega arith),
      drop_bytes 4 (le_bytes 4 n) (block ++ rest) (length-le_bytes 4 n),
      take-append block rest,
      drop-append block rest,
    )

pub length_block :
    (header block rest : Bytes)
    → length (header ++ (block ++ rest)) ≡ length header + length block + length rest
length_block header block rest =
    omega (arith, length-append header (block ++ rest), length-append block rest)

abbrev pub ReadsBack : (Value → Result Error Bytes) → (Bytes → Result Error Value) → Value → Type 0
ReadsBack enc dec v = (bs : Bytes) → enc v ≡ ok bs → length bs < 2 ^ 32 → dec bs ≡ ok v

module _ (enc : Value → Result Error Bytes) (dec : Bytes → Result Error Value) where
  generic_nil :
      (bs : Bytes)
      → encode_generic_field enc Value.nil ≡ ok bs
      → decode_generic_field dec bs ≡ ok Value.nil
  unfolding encode_generic_field decode_generic_field
  generic_nil bs e = rw (← ok_injective e) refl

  generic_value :
      (v : Value) (bs : Bytes)
      → is_nil v ≡ false
      → ReadsBack enc dec v
      → encode_generic_field enc v ≡ ok bs
      → length bs < 2 ^ 32
      → decode_generic_field dec bs ≡ ok v
  unfolding encode_generic_field decode_generic_field
  generic_value v bs n back e h =
      let (payload, e1, e2) = >>=-eq-ok (enc v) (λ p. ok (0 ∷ p)) (rw n at e) in
      rw (← ok_injective e2) (back payload e1 (omega (arith, ap length (ok_injective e2))))

  decode-encode_generic_field :
      (v : Value) (bs : Bytes)
      → Nullable (ReadsBack enc dec) v
      → encode_generic_field enc v ≡ ok bs
      → length bs < 2 ^ 32
      → decode_generic_field dec bs ≡ ok v
  decode-encode_generic_field v bs (inl n) e h = rw n (generic_nil bs (rw n at e))
  decode-encode_generic_field v bs (inr (n, back)) e h = generic_value v bs n back e h

  decode_items_step :
      (count : ℕ) (rest rest' block : Bytes) (v : Value) (vs : Items)
      → read_block rest ≡ ok (block, rest')
      → decode_generic_field dec block ≡ ok v
      → decode_items dec count rest' ≡ ok vs
      → decode_items dec (suc count) rest ≡ ok (Items.item v vs)
  unfolding decode_items
  decode_items_step count rest rest' block v vs e1 e2 e3 = rw e1 (rw e2 (rw e3))

  -- What `encode_items` adds to its buffer is read back in as many rounds as there are items.
  decode-encode_items :
      (vs : Items) (buf out : Bytes)
      → AllItems (Nullable (ReadsBack enc dec)) vs
      → encode_items enc vs buf ≡ ok out
      → length out < 2 ^ 32
      → (added : Bytes) × (out ≡ buf ++ added)
        × (item_count vs ≤ length added)
        × (decode_items dec (item_count vs) added ≡ ok vs)
  unfolding encode_items item_count
  decode-encode_items Items.end buf out t e h =
      ([], sym (append-nil buf ∙ ok_injective e), omega arith, unfold decode_items in refl)
  decode-encode_items (Items.item v vs) buf out t e h =
      let (payload, e1, e2) = >>=-eq-ok (encode_generic_field enc v) _ e in
      let header : Bytes = le_bytes 4 (length payload % 2 ^ 32) in
      let (added, eo, hc, hd) = decode-encode_items vs (buf ++ (header ++ payload)) out t.1 e2 h in
      let eo' : out ≡ buf ++ (header ++ (payload ++ added)) = eo ∙ simp append_assoc in
      let fits : length payload < 2 ^ 32 = omega (
        arith,
        ap length eo',
        length-append buf (header ++ (payload ++ added)),
        length_block header payload added,
      ) in
      (
        header ++ (payload ++ added),
        eo',
        omega (
          arith,
          hc,
          length_block header payload added,
          length-le_bytes 4 (length payload % 2 ^ 32),
        ),
        decode_items_step (item_count vs) _ added payload v vs
            (read_block-append payload added fits)
            (decode-encode_generic_field v payload t.0 e1 fits) hd,
      )

  pub decode-encode_length_prefixed_collection :
      (vs : Items) (bs : Bytes)
      → AllItems (Nullable (ReadsBack enc dec)) vs
      → encode_length_prefixed_collection enc vs ≡ ok bs
      → length bs < 2 ^ 32
      → decode_length_prefixed_collection dec bs ≡ ok vs
  unfolding encode_length_prefixed_collection decode_length_prefixed_collection
  decode-encode_length_prefixed_collection vs bs t e h =
      let n = item_count vs % 2 ^ 32 in
      let (added, eo, hc, hd) = decode-encode_items vs (le_bytes 4 n) bs t e h in
      let size = length-append (le_bytes 4 n) added in
      let fits : n ≡ item_count vs = omega (arith, ap length eo, size, hc, length-le_bytes 4 n) in
      let long : ltb (length (le_bytes 4 n ++ added)) 4 ≡ false =
        le→ltb _ 4 (omega (arith, size, length-le_bytes 4 n)) in
      rw eo (
        rw long (
          rw
            (
              le_uint-le_bytes 4 n added (omega arith),
              drop_bytes 4 (le_bytes 4 n) added (length-le_bytes 4 n),
              fits,
            )
            hd))
