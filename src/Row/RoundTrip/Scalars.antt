-- ===== src/Row/RoundTrip/Scalars.antt =====
-- Scalars in the indexed format.
use fluss_go_client.Prelude.{
  ℕ, zero, suc, ◌+◌, ◌/◌, ◌%◌, ◌^◌, ◌≤◌, ◌<◌, ◌≡◌, refl, ap, sym, ◌∙◌, Bool, true, false, arith, [],
  ◌∷◌, append-nil, length, length-append, some, Bool-cases, inl, inr,
}
use fluss_go_client.Prelude.Int.{ℤ, pos, negsuc, leb_ℤ}
use fluss_go_client.Result.{ok, ok_injective, ◌>>=◌}
use fluss_go_client.Bytes.{Bytes, le_bytes, le_uint, be_value}
use fluss_go_client.Bytes.Fixed.{length-le_bytes, le_uint-le_bytes, drop_bytes}
use fluss_go_client.Row.Types.{FieldType, Error, is_fixed}
use fluss_go_client.Row.Value.{
  Value, Numbers, as_bool, as_int8, as_int16, as_int32, as_int64, as_float32, as_float64, as_string,
  as_bytes, as_decimal, as_timestamp_ntz, as_timestamp_ltz,
}
use fluss_go_client.Row.Number.{int64_of, of_int64, magnitude_loop, magnitude, big_bytes, set_bytes}
use fluss_go_client.Row.Encode.{
  encode_fixed32, encode_fixed64, encode_length_prefixed_bytes, encode_bool, encode_decimal,
  encode_timestamp, encode_scalar,
}
use fluss_go_client.Row.Decode.{
  decode_fixed, decode_length_prefixed_bytes, decode_int32, decode_int64, decode_decimal,
  decode_timestamp, decode_scalar, fixed_size,
}
use fluss_go_client.Row.RoundTrip.Typed.{ScalarTyped, DecimalFits, TimestampFits}

-- An int64 read back is the number, if it is in range.
of_int64-int64_of :
    (z : ℤ) (precision : ℤ)
    → leb_ℤ precision (pos 18) ≡ true
    → DecimalFits precision z
    → of_int64 (int64_of z) ≡ z
unfolding of_int64 int64_of
of_int64-int64_of (pos n) p e h = let h' : n < 2 ^ 63 = rw e at h in ground arith
of_int64-int64_of (negsuc n) p e h = let h' : n < 2 ^ 63 = rw e at h in ground arith

int64_of-lt : (z : ℤ) → int64_of z < 2 ^ 64
unfolding int64_of
int64_of-lt (pos n) = omega arith
int64_of-lt (negsuc n) = omega arith

pub be_value-magnitude_loop :
    (fuel n : ℕ) (out : Bytes) → n ≤ fuel → be_value 0 (magnitude_loop fuel n out) ≡ be_value n out
unfolding magnitude_loop be_value
be_value-magnitude_loop zero n out h = ground arith
be_value-magnitude_loop (suc fuel) n out h =
    ground (arith, be_value-magnitude_loop fuel (n / 256) ((n % 256) ∷ out))

-- A number from 0 on is read back from the bytes of its magnitude.
set_bytes-big_bytes :
    (z : ℤ) (precision : ℤ)
    → leb_ℤ precision (pos 18) ≡ false
    → DecimalFits precision z
    → set_bytes (big_bytes z) ≡ z
unfolding set_bytes big_bytes magnitude be_value
set_bytes-big_bytes (pos n) p e h =
    ap pos (be_value-magnitude_loop (n + 0) (n + 0) [] (omega arith)) ∙ ap pos (omega arith)
set_bytes-big_bytes (negsuc n) p e h = absurd (rw e at h)

le_uint_exact : (k v : ℕ) → v < 256 ^ k → le_uint k (le_bytes k v) ≡ v
le_uint_exact k v h = rw (append-nil) at (le_uint-le_bytes k v [] h)

decode_fixed-le_bytes : (k v : ℕ) → v < 256 ^ k → decode_fixed k (le_bytes k v) ≡ ok v
unfolding decode_fixed
decode_fixed-le_bytes k v h = ground (arith, length-le_bytes k v, le_uint_exact k v h)

pub decode-encode_length_prefixed :
    (raw : Bytes)
    → decode_length_prefixed_bytes (encode_length_prefixed_bytes raw true) true ≡ ok raw
unfolding decode_length_prefixed_bytes encode_length_prefixed_bytes
decode-encode_length_prefixed raw = ground (
  arith,
  length-append (le_bytes 4 (length raw % 2 ^ 32)) raw,
  length-le_bytes 4 (length raw % 2 ^ 32),
  drop_bytes 4 (le_bytes 4 (length raw % 2 ^ 32)) raw,
)

decode-encode_decimal :
    (z precision scale : ℤ)
    → DecimalFits precision z
    → decode_decimal precision scale (encode_decimal z precision true) true
      ≡ ok (Value.decimal (some z) scale)
unfolding decode_decimal encode_decimal encode_fixed64
decode-encode_decimal z p scale h = elim (Bool-cases (leb_ℤ p (pos 18))) [
  | inl e ↦ rw e (
      ground
        (arith, decode_fixed-le_bytes 8 (int64_of z) (int64_of-lt z), of_int64-int64_of z p e h))
  | inr e ↦
      rw e
        (ground (arith, decode-encode_length_prefixed (big_bytes z), set_bytes-big_bytes z p e h))
]

decode-encode_timestamp :
    (precision : ℤ) (ms nanos : ℕ)
    → TimestampFits precision ms nanos
    → decode_timestamp precision (encode_timestamp (ms, nanos) precision) true ≡ ok (ms, nanos)
unfolding decode_timestamp encode_timestamp encode_fixed64
decode-encode_timestamp p ms nanos h = elim (Bool-cases (leb_ℤ p (pos 3))) [
  | inl e ↦
      let h' : nanos ≡ 0 = rw e at h.1 in rw e (ground (arith, h', decode_fixed-le_bytes 8 ms h.0))
  | inr e ↦
      let h' : nanos < 2 ^ 32 = rw e at h.1 in
      rw e (
        ground (
          arith,
          length-append (le_bytes 8 ms) (le_bytes 4 nanos),
          length-le_bytes 8 ms,
          length-le_bytes 4 nanos,
          le_uint-le_bytes 8 ms (le_bytes 4 nanos) h.0,
          drop_bytes 8 (le_bytes 8 ms) (le_bytes 4 nanos) (length-le_bytes 8 ms),
          le_uint_exact 4 nanos h',
        ))
]

le_uint_one : (v : ℕ) → le_uint 1 (v ∷ []) ≡ v
unfolding le_uint
le_uint_one v = omega arith

as_decimal_typed :
    (num : Numbers) (scale s z : ℤ)
    → s ≡ scale
    → as_decimal num scale (Value.decimal (some z) s) ≡ ok z
unfolding as_decimal
as_decimal_typed num scale s z h = rw h (ground arith)

pub encode_scalar_decimal :
    (num : Numbers) (precision scale s z : ℤ) (indexed : Bool)
    → s ≡ scale
    → encode_scalar num (FieldType.decimal precision scale) (Value.decimal (some z) s) indexed
      ≡ ok (encode_decimal z precision indexed)
unfolding encode_scalar
encode_scalar_decimal num p scale s z indexed h = rw (as_decimal_typed num scale s z h)

-- Every scalar that its field holds is read back from the bytes that encoding wrote for it.
pub decode_scalar-encode_scalar :
    (num : Numbers) (f : FieldType) (v : Value) (bs : Bytes)
    → ScalarTyped f v
    → encode_scalar num f v true ≡ ok bs
    → decode_scalar f bs true ≡ ok v
unfolding encode_scalar decode_scalar encode_bool encode_fixed32 encode_fixed64 decode_int32
    decode_int64 as_bool as_int8 as_int16 as_int32 as_int64 as_float32 as_float64 as_string as_bytes
    as_decimal as_timestamp_ntz as_timestamp_ltz
decode_scalar-encode_scalar num FieldType.bool (Value.bool true) bs h e = rw (← ok_injective e) refl
decode_scalar-encode_scalar num FieldType.bool (Value.bool false) bs h e =
    rw (← ok_injective e) refl
decode_scalar-encode_scalar num FieldType.int8 (Value.int8 v) bs h e =
    rw (← ok_injective e)
      (ap (λ x. ◌>>=◌ {E = Error} (ok x) (λ y. ok (Value.int8 y))) (le_uint_one v))
decode_scalar-encode_scalar num FieldType.int16 (Value.int16 v) bs h e =
    rw (← ok_injective e) (rw (decode_fixed-le_bytes 2 v h))
decode_scalar-encode_scalar num FieldType.int32 (Value.int32 v) bs h e =
    rw (← ok_injective e) (rw (decode_fixed-le_bytes 4 v h))
decode_scalar-encode_scalar num FieldType.int64 (Value.int64 v) bs h e =
    rw (← ok_injective e) (rw (decode_fixed-le_bytes 8 v h))
decode_scalar-encode_scalar num FieldType.float32 (Value.float32 v) bs h e =
    rw (← ok_injective e) (rw (decode_fixed-le_bytes 4 v h))
decode_scalar-encode_scalar num FieldType.float64 (Value.float64 v) bs h e =
    rw (← ok_injective e) (rw (decode_fixed-le_bytes 8 v h))
decode_scalar-encode_scalar num FieldType.date (Value.int32 v) bs h e =
    rw (← ok_injective e) (rw (decode_fixed-le_bytes 4 v h))
decode_scalar-encode_scalar num FieldType.time (Value.int32 v) bs h e =
    rw (← ok_injective e) (rw (decode_fixed-le_bytes 4 v h))
decode_scalar-encode_scalar num FieldType.string (Value.string s) bs h e =
    rw (← ok_injective e) (rw (decode-encode_length_prefixed s))
decode_scalar-encode_scalar num FieldType.bytes (Value.bytes s) bs h e =
    rw (← ok_injective e) (rw (decode-encode_length_prefixed s))
decode_scalar-encode_scalar num (FieldType.decimal p scale) (Value.decimal (some z) s) bs h e =
    rw (← ok_injective (sym (encode_scalar_decimal num p scale s z true h.0) ∙ e), h.0)
      (decode-encode_decimal z p scale h.1)
decode_scalar-encode_scalar num (FieldType.timestamp_ntz p) (Value.timestamp_ntz ms nanos) bs h e =
    rw (← ok_injective e) (rw (decode-encode_timestamp p ms nanos h))
decode_scalar-encode_scalar num (FieldType.timestamp_ltz p) (Value.timestamp_ltz ms nanos) bs h e =
    rw (← ok_injective e) (rw (decode-encode_timestamp p ms nanos h))
decode_scalar-encode_scalar num _ _ bs h e = absurd h

length_fixed_decimal :
    (p z scale : ℤ)
    → is_fixed (FieldType.decimal p scale) ≡ true
    → length (encode_decimal z p true) ≡ fixed_size (FieldType.decimal p scale)
unfolding is_fixed fixed_size encode_decimal encode_fixed64
length_fixed_decimal p z scale h = ground (arith, length-le_bytes 8 (int64_of z))

length_fixed_timestamp :
    (p : ℤ) (ms nanos : ℕ)
    → is_fixed (FieldType.timestamp_ntz p) ≡ true
    → length (encode_timestamp (ms, nanos) p) ≡ fixed_size (FieldType.timestamp_ntz p)
unfolding is_fixed fixed_size encode_timestamp encode_fixed64
length_fixed_timestamp p ms nanos h = ground (arith, length-le_bytes 8 ms)

-- A field of fixed size is written in as many bytes.
pub length_fixed :
    (num : Numbers) (f : FieldType) (v : Value) (bs : Bytes)
    → ScalarTyped f v
    → is_fixed f ≡ true
    → encode_scalar num f v true ≡ ok bs
    → length bs ≡ fixed_size f
unfolding encode_scalar encode_bool encode_fixed32 encode_fixed64 is_fixed fixed_size as_bool
    as_int8 as_int16 as_int32 as_int64 as_float32 as_float64 as_timestamp_ntz as_timestamp_ltz
length_fixed num FieldType.bool (Value.bool b) bs h fixed e = rw (← ok_injective e) refl
length_fixed num FieldType.int8 (Value.int8 v) bs h fixed e = rw (← ok_injective e) refl
length_fixed num FieldType.int16 (Value.int16 v) bs h fixed e =
    rw (← ok_injective e) (length-le_bytes 2 v)
length_fixed num FieldType.int32 (Value.int32 v) bs h fixed e =
    rw (← ok_injective e) (length-le_bytes 4 v)
length_fixed num FieldType.int64 (Value.int64 v) bs h fixed e =
    rw (← ok_injective e) (length-le_bytes 8 v)
length_fixed num FieldType.float32 (Value.float32 v) bs h fixed e =
    rw (← ok_injective e) (length-le_bytes 4 v)
length_fixed num FieldType.float64 (Value.float64 v) bs h fixed e =
    rw (← ok_injective e) (length-le_bytes 8 v)
length_fixed num FieldType.date (Value.int32 v) bs h fixed e =
    rw (← ok_injective e) (length-le_bytes 4 v)
length_fixed num FieldType.time (Value.int32 v) bs h fixed e =
    rw (← ok_injective e) (length-le_bytes 4 v)
length_fixed num FieldType.string (Value.string s) bs h fixed e = cc
length_fixed num FieldType.bytes (Value.bytes s) bs h fixed e = cc
length_fixed num (FieldType.decimal p scale) (Value.decimal (some z) s) bs h fixed e =
    rw (← ok_injective (sym (encode_scalar_decimal num p scale s z true h.0) ∙ e))
      (length_fixed_decimal p z scale fixed)
length_fixed num (FieldType.timestamp_ntz p) (Value.timestamp_ntz ms nanos) bs h fixed e =
    rw (← ok_injective e) (length_fixed_timestamp p ms nanos fixed)
length_fixed num (FieldType.timestamp_ltz p) (Value.timestamp_ltz ms nanos) bs h fixed e =
    rw (← ok_injective e) (length_fixed_timestamp p ms nanos fixed)
length_fixed num _ _ bs h fixed e = absurd h
