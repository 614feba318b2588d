-- ===== src/Shared/Outcome.antt =====
-- Go's `(value, error)` results: a value, or an error of the component's own type.
use mathlib.Core.Path.{◌≡◌, refl}
use mathlib.Core.Logic.{◌⊎◌, inl, inr}
use mathlib.Core.Bool.{Bool, true, false}
use mathlib.Core.Option.{Option, none, some}

pub data Outcome {ℓ} (E : Type 0) (A : Type ℓ) : Type ℓ where
  ok : A → Outcome E A
  err : E → Outcome E A

infixl 5 ◌>>=◌ ◌>>◌
abbrev pub ◌>>=◌ {ℓ κ} :
    {E : Type 0} {A : Type ℓ} {B : Type κ} → Outcome E A → (A → Outcome E B) → Outcome E B
ok a >>= f = f a
err e >>= f = err e

abbrev pub ◌>>◌ {κ} : {E : Type 0} {B : Type κ} → Outcome E (Unit {0}) → Outcome E B → Outcome E B
m >> k = m >>= λ _. k

-- `if test { return e }`
abbrev pub fail_if : {E : Type 0} → Bool → E → Outcome E (Unit {0})
fail_if true e = err e
fail_if false e = ok tt

-- `e != nil`
abbrev pub is_error {ℓ} : {E : Type 0} {A : Type ℓ} → Outcome E A → Bool
is_error (ok a) = false
is_error (err e) = true

abbrev pub is_some {ℓ} : {A : Type ℓ} → Option A → Bool
is_some none = false
is_some (some a) = true

-- `x, err := …; if err != nil { return err }`
abbrev pub expect {ℓ} : {E : Type 0} {A : Type ℓ} → E → Option A → Outcome E A
expect e none = err e
expect e (some a) = ok a

pub Outcome-cases {ℓ} :
    {E : Type 0} {A : Type ℓ} (o : Outcome E A) → ((a : A) × (o ≡ ok a)) ⊎ ((e : E) × (o ≡ err e))
Outcome-cases (ok a) = inl (a, refl)
Outcome-cases (err e) = inr (e, refl)
