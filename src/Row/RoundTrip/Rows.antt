-- ===== src/Row/RoundTrip/Rows.antt =====
-- row.go: the loops of encodeRow and decodeRow, field by field.
use fluss_go_client.Prelude.{
  ℕ, suc, ◌+◌, ◌*◌, ◌%◌, ◌^◌, ◌≤◌, ◌<◌, ◌≡◌, refl, ap, sym, ◌∙◌, true, false, not, ◌&&◌, ltb,
  le→ltb, ◌==◌, if◌then◌else◌, arith, List, [], ◌∷◌, ◌++◌, append_assoc, append-nil, length,
  length-append, take-append, drop-append, inl, inr, All, Bool-cases,
}
use fluss_go_client.Result.{ok, ◌>>=◌}
use fluss_go_client.Bytes.{Bytes, IsByte, le_bytes}
use fluss_go_client.Bytes.Fixed.{length-le_bytes, le_uint-le_bytes, drop_bytes}
use fluss_go_client.Row.Types.{FieldType, Fields, Error, is_fixed}
use fluss_go_client.Row.Value.{Value, Items, Numbers, item_count}
use fluss_go_client.Row.Encode.{set_null_bit, empty_null_bits, encode_value}
use fluss_go_client.Row.Decode.{null_bit, fixed_size, read_lengths, take_field}
use fluss_go_client.Row.Read.{decode_value, decode_fields}
use fluss_go_client.Row.NullBits.{
  set_null_bit-IsByte, length-set_null_bit, null_bit-set_null_bit, null_bit-replicate,
  replicate-IsByte, null_bits_enough,
}

-- What the loop of encodeRow holds: its null bits, lengths and payload.
abbrev pub Loop : Type 0
Loop = Bytes × Bytes × Bytes

-- The state behind the null bits before field `i`: bytes, enough of them for `n` fields more, and no
-- bit set from `i` on.
pub record IsClear (bits : Bytes) (i n : ℕ) : Type 0 where
  pub bytes : All IsByte bits
  pub room : i + n ≤ 8 * length bits
  pub clear : (j : ℕ) → i ≤ j → null_bit bits j ≡ false

ne→== : (i j : ℕ) → i < j → (i == j) ≡ false
ne→== i j h = ground arith

pub IsClear-skip : {bits : Bytes} (i n : ℕ) → IsClear bits i (suc n) → IsClear bits (i + 1) n
IsClear-skip i n c = record {
  bytes = c.bytes;
  room = omega arith;
  clear = λ j h. c.clear j (omega arith);
}

pub IsClear-set :
    {bits : Bytes} (i n : ℕ) → IsClear bits i (suc n) → IsClear (set_null_bit bits i) (i + 1) n
IsClear-set {bits} i n c = record {
  bytes = set_null_bit-IsByte bits i c.bytes;
  room = omega (arith, length-set_null_bit bits i, c.room);
  clear = λ j h.
      null_bit-set_null_bit bits i j c.bytes (omega (arith, c.room))
      ∙ rw (ne→== i j (omega arith)) (c.clear j (omega arith));
}

pub IsClear-empty : (vs : Items) → IsClear (empty_null_bits vs) 0 (item_count vs)
IsClear-empty vs = record {
  bytes = replicate-IsByte _;
  room = omega (arith, null_bits_enough (item_count vs));
  clear = λ j h. null_bit-replicate _ j;
}

-- What one field must do: its bytes decode to it, and there are as many as its type says.
pub record FieldReadsBack (num : Numbers) (f : FieldType) (v : Value) : Type 0 where
  pub decodes :
      (bs : Bytes)
      → encode_value num f v true ≡ ok bs
      → length bs < 2 ^ 32
      → decode_value f bs true ≡ ok v
  pub sized :
      (bs : Bytes)
      → is_fixed f ≡ true
      → encode_value num f v true ≡ ok bs
      → length bs ≡ fixed_size f

-- What the loop wrote after some fields, in the way that the loops of decodeRow read it.
pub record LoopReadsBack (fs : Fields) (vs : Items) (i : ℕ) (bits lengths payload : Bytes)
    (out : Loop) : Type 0 where
  pub ns : List ℕ
  pub more_lengths : Bytes
  pub more_payload : Bytes
  pub lengths_eq : out.1 ≡ lengths ++ more_lengths
  pub payload_eq : out.2 ≡ payload ++ more_payload
  pub bits_length : length out.0 ≡ length bits
  pub bits_kept : (j : ℕ) → j < i → null_bit out.0 j ≡ null_bit bits j
  pub lengths_read : (rest : Bytes) → read_lengths fs i out.0 (more_lengths ++ rest) ≡ ok (ns, rest)
  pub payload_read : decode_fields fs true i out.0 ns more_payload ≡ ok vs

-- One step of the first loop of decodeRow.
read_lengths_fixed :
    (f : FieldType) (fs : Fields) (i : ℕ) (bits rest rest' : Bytes) (ns : List ℕ)
    → is_fixed f ≡ true
    → read_lengths fs (i + 1) bits rest ≡ ok (ns, rest')
    → read_lengths (Fields.field f fs) i bits rest ≡ ok (fixed_size f ∷ ns, rest')
unfolding read_lengths
read_lengths_fixed f fs i bits rest rest' ns hf e = rw (hf, read_lengths) (rw e)

read_lengths_nil :
    (f : FieldType) (fs : Fields) (i : ℕ) (bits rest rest' : Bytes) (ns : List ℕ)
    → is_fixed f ≡ false
    → null_bit bits i ≡ true
    → read_lengths fs (i + 1) bits rest ≡ ok (ns, rest')
    → read_lengths (Fields.field f fs) i bits rest ≡ ok (0 ∷ ns, rest')
unfolding read_lengths
read_lengths_nil f fs i bits rest rest' ns hf hn e = rw (hf, read_lengths) (rw hn (rw e))

read_lengths_variable :
    (f : FieldType) (fs : Fields) (i n : ℕ) (bits rest rest' : Bytes) (ns : List ℕ)
    → is_fixed f ≡ false
    → null_bit bits i ≡ false
    → n < 2 ^ 32
    → read_lengths fs (i + 1) bits rest ≡ ok (ns, rest')
    → read_lengths (Fields.field f fs) i bits (le_bytes 4 (n % 2 ^ 32) ++ rest) ≡ ok (n ∷ ns, rest')
unfolding read_lengths
read_lengths_variable f fs i n bits rest rest' ns hf hn h e =
    let n' = n % 2 ^ 32 in
    let same : n' ≡ n = omega arith in
    let long : ltb (length (le_bytes 4 n' ++ rest)) 4 ≡ false =
      le→ltb _ 4 (omega (arith, length-append (le_bytes 4 n') rest, length-le_bytes 4 n')) in
    rw (hf, read_lengths)
      (rw hn (
        rw long (
          rw (drop_bytes 4 (le_bytes 4 n') rest (length-le_bytes 4 n')) (
            rw e (
              ap (λ k. ◌>>=◌ {E = Error} (ok k) (λ k. ok (k ∷ ns, rest')))
                (le_uint-le_bytes 4 n' rest (omega arith) ∙ same))))))

-- One step of the second loop.
decode_fields_nil :
    (f : FieldType) (fs : Fields) (i n : ℕ) (bits rest : Bytes) (ns : List ℕ) (vs : Items)
    → null_bit bits i ≡ true
    → decode_fields fs true (i + 1) bits ns rest ≡ ok vs
    → decode_fields (Fields.field f fs) true i bits (n ∷ ns) rest ≡ ok (Items.item Value.nil vs)
unfolding decode_fields
decode_fields_nil f fs i n bits rest ns vs hn e = rw (hn, decode_fields) (rw e)

decode_fields_value :
    (f : FieldType) (fs : Fields) (i : ℕ) (bits block rest : Bytes) (ns : List ℕ) (v : Value)
    (vs : Items)
    → null_bit bits i ≡ false
    → decode_value f block true ≡ ok v
    → decode_fields fs true (i + 1) bits ns rest ≡ ok vs
    → decode_fields (Fields.field f fs) true i bits (length block ∷ ns) (block ++ rest)
      ≡ ok (Items.item v vs)
unfolding decode_fields take_field
decode_fields_value f fs i bits block rest ns v vs hn hv e =
    let long : ltb (length (block ++ rest)) (length block) ≡ false =
      le→ltb _ (length block) (omega (arith, length-append block rest)) in
    rw (hn, decode_fields)
      (rw long (rw (take-append block rest) (rw hv (rw (drop-append block rest) (rw e)))))

module _ (fs : Fields) (vs : Items) (i n : ℕ) (bits lengths payload : Bytes) (out : Loop) where
  nil_bit :
      IsClear bits i (suc n)
      → LoopReadsBack fs vs (i + 1) (set_null_bit bits i) lengths payload out
      → null_bit out.0 i ≡ true
  nil_bit c r =
      r.bits_kept i (omega arith)
      ∙ null_bit-set_null_bit bits i i c.bytes (omega (arith, c.room))
      ∙ ground arith

  value_bit :
      IsClear bits i (suc n)
      → LoopReadsBack fs vs (i + 1) bits lengths payload out
      → null_bit out.0 i ≡ false
  value_bit c r = r.bits_kept i (omega arith) ∙ c.clear i (omega arith)

  nil_kept :
      IsClear bits i (suc n)
      → LoopReadsBack fs vs (i + 1) (set_null_bit bits i) lengths payload out
      → (j : ℕ) → j < i
      → null_bit out.0 j ≡ null_bit bits j
  nil_kept c r j h =
      r.bits_kept j (omega arith)
      ∙ null_bit-set_null_bit bits i j c.bytes (omega (arith, c.room))
      ∙ ground arith

pub LoopReadsBack-end :
    (i : ℕ) (bits lengths payload : Bytes)
    → LoopReadsBack Fields.end Items.end i bits lengths payload (bits, lengths, payload)
unfolding read_lengths decode_fields
LoopReadsBack-end i bits lengths payload = record {
  ns = [];
  more_lengths = [];
  more_payload = [];
  lengths_eq = sym (append-nil lengths);
  payload_eq = sym (append-nil payload);
  bits_length = refl;
  bits_kept = λ j h. refl;
  lengths_read = λ rest. refl;
  payload_read = refl;
}

-- A nil value sets its bit and writes nothing.
pub LoopReadsBack-nil :
    (f : FieldType) (fs : Fields) (vs : Items) (i n : ℕ) (bits lengths payload : Bytes) (out : Loop)
    → IsClear bits i (suc n)
    → LoopReadsBack fs vs (i + 1) (set_null_bit bits i) lengths payload out
    → LoopReadsBack (Fields.field f fs) (Items.item Value.nil vs) i bits lengths payload out
LoopReadsBack-nil f fs vs i n bits lengths payload out c r = elim (Bool-cases (is_fixed f)) [
  | inl fixed ↦
      nil_record (fixed_size f)
        (λ rest. read_lengths_fixed f fs i out.0 _ rest r.ns fixed (r.lengths_read rest))
  | inr loose ↦
      nil_record 0
        (λ rest. read_lengths_nil f fs i out.0 _ rest r.ns loose is_set (r.lengths_read rest))
]
  where
    is_set : null_bit out.0 i ≡ true
    is_set = nil_bit fs vs i n bits lengths payload out c r

    nil_record :
        (k : ℕ)
        → ((rest : Bytes)
            → read_lengths (Fields.field f fs) i out.0 (r.more_lengths ++ rest)
              ≡ ok (k ∷ r.ns, rest))
        → LoopReadsBack (Fields.field f fs) (Items.item Value.nil vs) i bits lengths payload out
    nil_record k read = record {
      ns = k ∷ r.ns;
      more_lengths = r.more_lengths;
      more_payload = r.more_payload;
      lengths_eq = r.lengths_eq;
      payload_eq = r.payload_eq;
      bits_length = r.bits_length ∙ length-set_null_bit bits i;
      bits_kept = nil_kept fs vs i n bits lengths payload out c r;
      lengths_read = read;
      payload_read = decode_fields_nil f fs i k out.0 r.more_payload r.ns vs is_set r.payload_read;
    }

-- A value that is not nil adds its bytes to the payload, and their number if its type is not fixed.
pub LoopReadsBack-value :
    (f : FieldType) (fs : Fields) (v : Value) (vs : Items) (i n : ℕ)
    (bits lengths payload block : Bytes) (out : Loop)
    → IsClear bits i (suc n)
    → length block < 2 ^ 32
    → decode_value f block true ≡ ok v
    → (is_fixed f ≡ true → length block ≡ fixed_size f)
    → LoopReadsBack fs vs
        (i + 1)
        bits
        (if true && not (is_fixed f)
          then lengths ++ le_bytes 4 (length block % 2 ^ 32)
          else lengths)
        (payload ++ block)
        out
    → LoopReadsBack (Fields.field f fs) (Items.item v vs) i bits lengths payload out
LoopReadsBack-value f fs v vs i n bits lengths payload block out c fits dec sized r =
    elim (Bool-cases (is_fixed f)) [
      | inl fixed ↦ value_record r.more_lengths (rw fixed at r.lengths_eq) (λ rest.
          rw (sized fixed)
            (read_lengths_fixed f fs i out.0 _ rest r.ns fixed (r.lengths_read rest)))
      | inr loose ↦
          value_record (header ++ r.more_lengths)
            ((rw loose at r.lengths_eq) ∙ append_assoc lengths header r.more_lengths)
            (λ rest. rw (append_assoc header r.more_lengths rest) (
              read_lengths_variable f fs i (length block) out.0 _ rest r.ns loose is_clear fits
                (r.lengths_read rest)))
    ]
  where
    header : Bytes
    header = le_bytes 4 (length block % 2 ^ 32)

    is_clear : null_bit out.0 i ≡ false
    is_clear = r.bits_kept i (omega arith) ∙ c.clear i (omega arith)

    value_record :
        (more : Bytes)
        → out.1 ≡ lengths ++ more
        → ((rest : Bytes)
            → read_lengths (Fields.field f fs) i out.0 (more ++ rest)
              ≡ ok (length block ∷ r.ns, rest))
        → LoopReadsBack (Fields.field f fs) (Items.item v vs) i bits lengths payload out
    value_record more eq read = record {
      ns = length block ∷ r.ns;
      more_lengths = more;
      more_payload = block ++ r.more_payload;
      lengths_eq = eq;
      payload_eq = r.payload_eq ∙ append_assoc payload block r.more_payload;
      bits_length = r.bits_length;
      bits_kept = λ j h. r.bits_kept j (omega arith);
      lengths_read = read;
      payload_read =
          decode_fields_value f fs i out.0 block r.more_payload r.ns v vs is_clear dec
            r.payload_read;
    }
