-- ===== src/Row/RoundTrip/Typed.antt =====
-- The values that a field may hold: the field's own Go type, within its width.
use fluss_go_client.Prelude.{ℕ, ◌^◌, ◌<◌, ◌≡◌, ◌⊎◌, inl, inr, false, if◌then◌else◌, some}
use fluss_go_client.Prelude.Int.{ℤ, pos, negsuc, leb_ℤ}
use fluss_go_client.Row.Types.{FieldType, FieldPtr, Fields}
use fluss_go_client.Row.Value.{Value, Items, is_nil}

-- A decimal of up to 18 digits is stored as an int64; a longer one by its magnitude alone, so only
-- numbers from 0 on are kept.
abbrev pub DecimalFits : ℤ → ℤ → Type 0
DecimalFits precision (pos n) = if leb_ℤ precision (pos 18) then n < 2 ^ 63 else Unit
DecimalFits precision (negsuc n) = if leb_ℤ precision (pos 18) then n < 2 ^ 63 else ⊥

-- A timestamp of up to 3 digits has no nanoseconds.
abbrev pub TimestampFits : ℤ → ℕ → ℕ → Type 0
TimestampFits precision ms nanos =
    (ms < 2 ^ 64) × (if leb_ℤ precision (pos 3) then nanos ≡ 0 else nanos < 2 ^ 32)

abbrev pub ScalarTyped : FieldType → Value → Type 0
ScalarTyped FieldType.bool (Value.bool b) = Unit
ScalarTyped FieldType.int8 (Value.int8 v) = v < 2 ^ 8
ScalarTyped FieldType.int16 (Value.int16 v) = v < 2 ^ 16
ScalarTyped FieldType.int32 (Value.int32 v) = v < 2 ^ 32
ScalarTyped FieldType.int64 (Value.int64 v) = v < 2 ^ 64
ScalarTyped FieldType.float32 (Value.float32 v) = v < 2 ^ 32
ScalarTyped FieldType.float64 (Value.float64 v) = v < 2 ^ 64
ScalarTyped FieldType.string (Value.string s) = Unit
ScalarTyped FieldType.bytes (Value.bytes s) = Unit
ScalarTyped FieldType.date (Value.int32 v) = v < 2 ^ 32
ScalarTyped FieldType.time (Value.int32 v) = v < 2 ^ 32
ScalarTyped (FieldType.decimal precision scale) (Value.decimal (some z) s) =
    (s ≡ scale) × DecimalFits precision z
ScalarTyped (FieldType.timestamp_ntz precision) (Value.timestamp_ntz ms nanos) =
    TimestampFits precision ms nanos
ScalarTyped (FieldType.timestamp_ltz precision) (Value.timestamp_ltz ms nanos) =
    TimestampFits precision ms nanos
ScalarTyped _ _ = ⊥

-- A nil value, or one that is not nil and in `P`.
abbrev pub Nullable : (Value → Type 0) → Value → Type 0
Nullable P v = (v ≡ Value.nil) ⊎ ((is_nil v ≡ false) × P v)

abbrev pub AllItems : (Value → Type 0) → Items → Type 0
AllItems P Items.end = Unit
AllItems P (Items.item v vs) = P v × AllItems P vs

pub AllItems-map :
    {P Q : Value → Type 0}
    → ((v : Value) → P v → Q v)
    → (vs : Items) → AllItems (Nullable P) vs
    → AllItems (Nullable Q) vs
AllItems-map f Items.end t = tt
AllItems-map f (Items.item v vs) (inl e, ts) = (inl e, AllItems-map f vs ts)
AllItems-map f (Items.item v vs) (inr (n, p), ts) = (inr (n, f v p), AllItems-map f vs ts)

abbrev pub ItemsOf : (Items → Type 0) → Value → Type 0
ItemsOf P (Value.items vs) = P vs
ItemsOf P _ = ⊥

-- Values of map type are left out: their order is the run time's choice.
abbrev mutual
  pub Typed : FieldType → Value → Type 0
  Typed (FieldType.array p) v = ItemsOf (AllItems (Nullable (λ x. TypedPtr p x))) v
  Typed (FieldType.row fs) v = ItemsOf (λ vs. TypedFields fs vs) v
  Typed (FieldType.map k e) v = ⊥
  Typed f v = ScalarTyped f v

  pub TypedPtr : FieldPtr → Value → Type 0
  TypedPtr FieldPtr.nil v = ⊥
  TypedPtr (FieldPtr.ptr t) v = Typed t v

  -- As many values as fields, each nil or of its field's type.
  pub TypedFields : Fields → Items → Type 0
  TypedFields Fields.end Items.end = Unit
  TypedFields Fields.end (Items.item v vs) = ⊥
  TypedFields (Fields.field f fs) Items.end = ⊥
  TypedFields (Fields.field f fs) (Items.item v vs) =
      Nullable (λ x. Typed f x) v × TypedFields fs vs
