-- ===== src/Result.antt =====
-- Go's (value, error) pairs, for every component: a value, an error of the component's own type,
-- or a run-time panic, which no caller of the modelled code recovers from.
use fluss_go_client.Prelude.{◌≡◌, refl, Bool, true, false}

pub data Result {ℓ} (E A : Type ℓ) : Type ℓ where
  panic : Result E A
  err : E → Result E A
  ok : A → Result E A

-- `if test { return err }`
abbrev pub reject {ℓ} : {E : Type ℓ} → Bool → E → Result E (Unit {ℓ})
reject false e = ok tt
reject true e = err e

-- `x, err := m; if err != nil { return err }`, and what follows it with `x`.
infixl 5 ◌>>=◌
abbrev pub ◌>>=◌ {ℓ} : {E A B : Type ℓ} → Result E A → (A → Result E B) → Result E B
panic >>= next = panic
err e >>= next = err e
ok x >>= next = next x

-- The same where the value is not used.
infixl 5 ◌>>◌
abbrev pub ◌>>◌ {ℓ} : {E B : Type ℓ} → Result E (Unit {ℓ}) → Result E B → Result E B
check >> next = check >>= λ done. next

-- A wrapped error, `fmt.Errorf("...: %w", err)`.
abbrev pub map_error {ℓ} : {E F A : Type ℓ} → (E → F) → Result E A → Result F A
map_error f (ok a) = ok a
map_error f (err e) = err (f e)
map_error f panic = panic

-- A chain that ends in a value had one from its first part.
pub >>=-eq-ok {ℓ} :
    {E A B : Type ℓ} (first : Result E A) (next : A → Result E B) {y : B}
    → first >>= next ≡ ok y
    → (x : A) × (first ≡ ok x) × (next x ≡ ok y)
>>=-eq-ok panic next h = cc
>>=-eq-ok (err e) next h = cc
>>=-eq-ok (ok x) next h = (x, refl, h)

pub map_error-eq-ok {ℓ} :
    {E F A : Type ℓ} (f : E → F) (m : Result E A) {a : A} → map_error f m ≡ ok a → m ≡ ok a
map_error-eq-ok f (ok a) h = cc
map_error-eq-ok f (err e) h = cc
map_error-eq-ok f panic h = cc

pub ok_injective {ℓ} : {E A : Type ℓ} {a b : A} → ◌≡◌ {A = Result E A} (ok a) (ok b) → a ≡ b
ok_injective h = cc
