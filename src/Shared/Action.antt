-- ===== src/Shared/Action.antt =====
-- Go functions that write durable state and may return an error: what was written before the error
-- stays written.

use edgelab.Shared.Outcome.{Outcome, ok, err}
use mathlib.Core.Path.{◌≡◌, refl}
use mathlib.Core.Bool.{Bool, true, false}
use edgelab.Shared.Tests.{if◌then◌else◌}

abbrev pub Action {ℓ} : Type 0 → Type 0 → Type ℓ → Type ℓ
Action S E A = S → S × Outcome E A

-- What a function does with the outcome of its first step.
abbrev pub go_on : {S E A B : Type 0} → (A → Action S E B) → S → Outcome E A → S × Outcome E B
go_on f s (ok a) = f a s
go_on f s (err e) = (s, err e)

infixl 5 ◌>>=◌ ◌>>◌
abbrev pub ◌>>=◌ : {S E A B : Type 0} → Action S E A → (A → Action S E B) → Action S E B
◌>>=◌ m f s = let (s', o) = m s in go_on f s' o

abbrev pub ◌>>◌ : {S E B : Type 0} → Action S E (Unit {0}) → Action S E B → Action S E B
m >> k = m >>= λ _. k

abbrev pub pure : {S E A : Type 0} → A → Action S E A
pure a s = (s, ok a)

abbrev pub lift : {S E A : Type 0} → Outcome E A → Action S E A
lift o s = (s, o)

abbrev pub gets : {S E A : Type 0} → (S → A) → Action S E A
gets f s = (s, ok (f s))

abbrev pub modify : {S E : Type 0} → (S → S) → Action S E (Unit {0})
modify f s = (f s, ok tt)

-- `if test { return e }`
abbrev pub stop_if : {S E : Type 0} → Bool → E → Action S E (Unit {0})
stop_if true e s = (s, err e)
stop_if false e s = (s, ok tt)

after_outcome :
    {S E A B : Type 0} (P : S × Outcome E B → Type 0) (f : A → Action S E B) (s : S)
    (o : Outcome E A)
    → ((e : E) → o ≡ err e → P (s, err e))
    → ((a : A) → o ≡ ok a → P (f a s))
    → P (go_on f s o)
after_outcome P f s (ok a) failed passed = passed a refl
after_outcome P f s (err e) failed passed = failed e refl

-- What holds after two steps: of the first one's error, and of the second from where the first ends.
pub after_bind :
    {S E A B : Type 0} (P : S × Outcome E B → Type 0) (m : Action S E A) (f : A → Action S E B)
    (s : S)
    → ((e : E) → (m s).1 ≡ err e → P ((m s).0, err e))
    → ((a : A) → (m s).1 ≡ ok a → P (f a (m s).0))
    → P ((m >>= f) s)
after_bind P m f s failed passed = after_outcome P f (m s).0 (m s).1 failed passed

-- An error of a callee as an error of its caller.
abbrev pub relabel_outcome {ℓ} : {E F : Type 0} {A : Type ℓ} → (E → F) → Outcome E A → Outcome F A
relabel_outcome f (ok a) = ok a
relabel_outcome f (err e) = err (f e)

abbrev pub relabel : {S E F A : Type 0} → (E → F) → Action S E A → Action S F A
relabel f m s = ((m s).0, relabel_outcome f (m s).1)

pub relabel_ok {ℓ} :
    {E F : Type 0} {A : Type ℓ} (f : E → F) (o : Outcome E A) (a : A)
    → relabel_outcome f o ≡ ok a
    → o ≡ ok a
relabel_ok f (ok b) a h = cc
relabel_ok f (err e) a h = cc

-- Where two steps succeed, each has.
pub bind_ok :
    {S E A B : Type 0} (m : Action S E A) (f : A → Action S E B) (s : S) (b : B)
    → ((m >>= f) s).1 ≡ ok b
    → (a : A) × ((m s).1 ≡ ok a) × ((f a (m s).0).1 ≡ ok b)
bind_ok {A} m f s b =
    after_bind (λ r. r.1 ≡ ok b → (a : A) × ((m s).1 ≡ ok a) × ((f a (m s).0).1 ≡ ok b)) m f s
      (λ e h bad. absurd (cc)) (λ a h done. (a, h, done))

pub lift_ok :
    {E A : Type 0} {S : Type 0} (o : Outcome E A) (s : S) (a : A) → (lift o s).1 ≡ ok a → o ≡ ok a
lift_ok o s a h = h

pub stop_if_ok :
    {S E : Type 0} (test : Bool) (e : E) (s : S)
    → (stop_if test e s).1 ≡ ok tt
    → (test ≡ false) × ((stop_if test e s).0 ≡ s)
stop_if_ok true e s h = cc
stop_if_ok false e s h = (refl, refl)

-- A part of the state.
abbrev pub zoom : {S T E A : Type 0} → (S → T) → (T → S → S) → Action T E A → Action S E A
zoom get put m s = (put (m (get s)).0 s, (m (get s)).1)

-- The outcome as a value: what is written before an error stays.
abbrev pub attempt : {S E A : Type 0} → Action S E A → Action S E (Outcome E A)
attempt m s = ((m s).0, ok (m s).1)

-- What every step of an action keeps.
module _ {S E : Type 0} (I : S → Type 0) where
  abbrev pub Preserves : {A : Type 0} → Action S E A → Type 0
  Preserves m = (s : S) → I s → I (m s).0

  pub Preserves-bind :
      {A B : Type 0} (m : Action S E A) (f : A → Action S E B)
      → Preserves m
      → ((a : A) → Preserves (f a))
      → Preserves (m >>= f)
  Preserves-bind m f first later s h =
      after_bind (λ r. I r.0) m f s (λ e x. first s h) (λ a x. later a (m s).0 (first s h))

  pub Preserves-stop_if : (test : Bool) (e : E) → Preserves (stop_if test e)
  Preserves-stop_if true e s h = h
  Preserves-stop_if false e s h = h

  pub Preserves-branch :
      {A : Type 0} (b : Bool) (x y : Action S E A)
      → (b ≡ true → Preserves x)
      → (b ≡ false → Preserves y)
      → Preserves (if b then x else y)
  Preserves-branch true x y holds fails = holds refl
  Preserves-branch false x y holds fails = fails refl
