-- ===== src/Prelude/Outcome.antt =====
-- The result of a call that may raise an error of the type `E`.
use mathlib.Core.Path.{◌≡◌, refl}
use mathlib.Core.Logic.{◌⊎◌, inl, inr}
use mathlib.Core.Bool.{Bool, true, false}
use mathlib.Core.Option.{Option, none, some}

pub data Outcome {ℓ ℓ'} (E : Type ℓ) (A : Type ℓ') : Type (ℓ ⊔ ℓ') where
  ok : A → Outcome E A
  err : E → Outcome E A

infixl 5 ◌>>=◌
-- What raises skips the rest.
abbrev pub ◌>>=◌ {ℓ ℓ' ℓ''} :
    {E : Type ℓ} {A : Type ℓ'} {B : Type ℓ''} → Outcome E A → (A → Outcome E B) → Outcome E B
ok value >>= rest = rest value
err e >>= rest = err e

-- `if condition: raise e`
abbrev pub refuse_if {ℓ} : {E : Type ℓ} → Bool → E → Outcome E (Unit {0})
refuse_if true e = err e
refuse_if false e = ok tt

-- A lookup whose failure raises.
abbrev pub or_raise {ℓ ℓ'} : {E : Type ℓ} {A : Type ℓ'} → Option A → E → Outcome E A
or_raise none e = err e
or_raise (some a) e = ok a

pub Outcome-cases {ℓ ℓ'} :
    {E : Type ℓ} {A : Type ℓ'} (o : Outcome E A) → ((a : A) × (o ≡ ok a)) ⊎ ((e : E) × (o ≡ err e))
Outcome-cases (ok a) = inl (a, refl)
Outcome-cases (err e) = inr (e, refl)
