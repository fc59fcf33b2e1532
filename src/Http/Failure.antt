-- ===== src/Http/Failure.antt =====
-- What a call raises: eazy_sdk/clients/base.py, and exceptions that come from outside the model.
use eazy_sdk.Prelude.{ℕ, Bool, true, false, Option, none, some}

pub data Failure : Type 0 where
  unsafe_replay redirect_limit attempt_limit replay_denied : Failure
  key_error value_error assertion challenge_parse ambiguous_challenge : Failure
  -- an exception object that a handler, a hook, a solver or a declared case raises, by identity
  raised : ℕ → Failure

pub data Result {ℓ} (A : Type ℓ) : Type ℓ where
  ok : A → Result A
  err : Failure → Result A

infixl 5 ◌>>=◌ ◌>>◌
-- What raises skips the rest.
abbrev pub ◌>>=◌ {ℓ ℓ'} : {A : Type ℓ} {B : Type ℓ'} → Result A → (A → Result B) → Result B
ok value >>= rest = rest value
err failure >>= rest = err failure

abbrev pub ◌>>◌ {ℓ} : {B : Type ℓ} → Result (Unit {0}) → Result B → Result B
ok done >> rest = rest
err failure >> rest = err failure

-- A result, or the exception that is raised where there is none.
abbrev pub or_raise {ℓ} : {A : Type ℓ} → Option A → Failure → Result A
or_raise (some value) e = ok value
or_raise none e = err e

-- `if not condition: raise failure`
abbrev pub require : Bool → Failure → Result (Unit {0})
require true e = ok tt
require false e = err e
