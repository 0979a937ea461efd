-- ===== src/Base/Outcomes.antt =====
-- Results of code that fails by an error value, or by a run-time panic. `out_of_fuel` belongs to
-- the model alone: it marks a loop that did not end within the rounds that it was given.
use mathlib.Core.Bool.{Bool, true, false}
use mathlib.Core.Option.{Option, none, some}
use mathlib.Core.Logic.{◌⊎◌, inl, inr}
use mathlib.Core.Path.{◌≡◌, refl}
use proksitool.Base.Tests.{if◌then◌else◌}

pub data Outcome {ℓ} (E : Type 0) (A : Type ℓ) : Type ℓ where
  ok : A → Outcome E A
  err : E → Outcome E A
  panic : Outcome E A
  out_of_fuel : Outcome E A

infixl 5 ◌>>=◌
abbrev pub ◌>>=◌ {ℓ κ} :
    {E : Type 0} {A : Type ℓ} {B : Type κ} → Outcome E A → (A → Outcome E B) → Outcome E B
ok a >>= f = f a
err e >>= f = err e
panic >>= f = panic
out_of_fuel >>= f = out_of_fuel

-- A partial access that the source makes without a test of its own.
abbrev pub or_panic {ℓ} : {E : Type 0} {A : Type ℓ} → Option A → Outcome E A
or_panic none = panic
or_panic (some a) = ok a

-- The run returned, and if it returned a value, then one of which `P` holds.
abbrev pub Returns {ℓ} : {E : Type 0} {A : Type ℓ} → (A → Type 0) → Outcome E A → Type 0
Returns P (ok a) = P a
Returns P (err e) = Unit
Returns P panic = ⊥
Returns P out_of_fuel = ⊥

-- What is there, if anything is, satisfies `P`.
abbrev pub OnSome {ℓ} : {A : Type ℓ} → (A → Type 0) → Option A → Type 0
OnSome P none = Unit
OnSome P (some a) = P a

-- A branch: each side is shown with the value of the test at hand.
pub if_cases {ℓ κ} :
    {A : Type ℓ} (P : A → Type κ) (b : Bool) (x y : A)
    → (b ≡ true → P x)
    → (b ≡ false → P y)
    → P (if b then x else y)
if_cases P true x y hx hy = hx refl
if_cases P false x y hx hy = hy refl

-- A run followed by another that returns from every value of the first.
pub Returns-bind {ℓ κ} :
    {E : Type 0} {A : Type ℓ} {B : Type κ} (P : A → Type 0) (Q : B → Type 0) (m : Outcome E A)
    (f : A → Outcome E B)
    → Returns P m
    → ((a : A) → P a → Returns Q (f a))
    → Returns Q (m >>= f)
Returns-bind P Q (ok a) f h k = k a h
Returns-bind P Q (err e) f h k = tt
Returns-bind P Q panic f h k = absurd h
Returns-bind P Q out_of_fuel f h k = absurd h

pub Returns-map {ℓ} :
    {E : Type 0} {A : Type ℓ} (P Q : A → Type 0) (m : Outcome E A)
    → ((a : A) → P a → Q a)
    → Returns P m
    → Returns Q m
Returns-map P Q (ok a) f h = f a h
Returns-map P Q (err e) f h = tt
Returns-map P Q panic f h = absurd h
Returns-map P Q out_of_fuel f h = absurd h

-- A run that returned gave a value or an error.
pub Outcome-cases {ℓ} :
    {E : Type 0} {A : Type ℓ} (m : Outcome E A)
    → Returns (λ a. Unit) m
    → ((a : A) × (m ≡ ok a)) ⊎ ((e : E) × (m ≡ err e))
Outcome-cases (ok a) h = inl (a, refl)
Outcome-cases (err e) h = inr (e, refl)
Outcome-cases panic h = absurd h
Outcome-cases out_of_fuel h = absurd h
