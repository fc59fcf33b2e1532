-- ===== src/Http/Attempts/Transition.antt =====
-- What may follow an attempt, said of the two states alone: a specification of the policies.
use eazy_sdk.Prelude.{suc, String, ◌≡◌, refl, Bool, true, Option, some, ℤ, pos, ◌-ℤ◌, ◌≤ℤ◌, arith}
use eazy_sdk.Http.Failure.{Result, ok, err}
use eazy_sdk.Http.Attempts.{
  replays_left, spend_replay, spend, AttemptState, Decision, continue, stop, fail, TransportFailure,
}
use eazy_sdk.Http.Attempts.Policies.{
  transport_retry, response_retry, follow_redirect, auth_refresh, replay_challenge,
}

-- Where the next attempt goes is carried over.
pub record SameTarget (s t : AttemptState) : Type 0 where
  pub url : t.url ≡ s.url
  pub method : t.method ≡ s.method
  pub omit_body : t.omit_body ≡ s.omit_body
  pub redirected : t.redirected ≡ s.redirected

-- A repeat spends one unit of a budget that has one left, or was proposed by a hook and spends
-- nothing. Only a redirect and the replay of a challenge are open to an operation that is not
-- idempotent.
pub data Transition (idempotent : Bool) (s t : AttemptState) : Type 0 where
  retried :
      t.number ≡ suc s.number
      → idempotent ≡ true
      → pos 1 ≤ℤ s.budgets.transport
      → t.budgets ≡ record s.budgets { transport = s.budgets.transport -ℤ pos 1 }
      → SameTarget s t
      → Transition idempotent s t
  proposed :
      t.number ≡ suc s.number
      → idempotent ≡ true
      → t.budgets ≡ s.budgets
      → SameTarget s t
      → Transition idempotent s t
  refreshed :
      t.number ≡ suc s.number
      → idempotent ≡ true
      → pos 1 ≤ℤ s.budgets.auth
      → t.budgets ≡ record s.budgets { auth = s.budgets.auth -ℤ pos 1 }
      → SameTarget s t
      → Transition idempotent s t
  redirected :
      t.number ≡ suc s.number
      → pos 1 ≤ℤ s.budgets.redirect
      → t.budgets ≡ record s.budgets { redirect = s.budgets.redirect -ℤ pos 1 }
      → t.redirected ≡ true
      → Transition idempotent s t
  replayed :
      (policy : String) (n : ℤ)
      → t.number ≡ suc s.number
      → replays_left policy s.budgets.replays ≡ some n
      → pos 1 ≤ℤ n
      → t.budgets ≡ record s.budgets { replays = spend_replay policy s.budgets.replays }
      → SameTarget s t
      → Transition idempotent s t

-- A decision to go on is an allowed transition.
abbrev pub Allowed : {P M T : Type 0} → Bool → AttemptState → Decision P M T → Type 0
Allowed idempotent s (continue c) = Transition idempotent s c.state
Allowed idempotent s (stop v) = Unit
Allowed idempotent s (fail e) = Unit

abbrev pub AllowedIfOk : {P M T : Type 0} → Bool → AttemptState → Result (Decision P M T) → Type 0
AllowedIfOk idempotent s (ok d) = Allowed idempotent s d
AllowedIfOk idempotent s (err e) = Unit

module _ (P M T : Type 0) (s : AttemptState) where
  pub transport_retry-Allowed :
      (o : TransportFailure)
      → AllowedIfOk o.idempotent s (transport_retry {P = P} {M = M} {T = T} s o)
  unfolding transport_retry spend
  transport_retry-Allowed o = ground arith

  pub response_retry-Allowed :
      (kind : String) (patch : Option P) (consumes_transport : Bool)
      → (consumes_transport ≡ true → pos 1 ≤ℤ s.budgets.transport)
      → AllowedIfOk true s (response_retry {M = M} {T = T} s kind patch consumes_transport)
  unfolding response_retry spend
  response_retry-Allowed kind patch consumes_transport h = ground arith

  pub follow_redirect-Allowed :
      (idempotent : Bool) (url : String) (method : Option String) (omit_body : Bool)
      → pos 1 ≤ℤ s.budgets.redirect
      → AllowedIfOk idempotent s (follow_redirect {P = P} {M = M} {T = T} s url method omit_body)
  unfolding follow_redirect spend
  follow_redirect-Allowed idempotent url method omit_body h = ground arith

  pub auth_refresh-Allowed :
      pos 1 ≤ℤ s.budgets.auth → AllowedIfOk true s (auth_refresh {P = P} {M = M} {T = T} s)
  unfolding auth_refresh spend
  auth_refresh-Allowed h = ground arith

  pub replay_challenge-Allowed :
      (idempotent : Bool) (policy : String) (m : M) (n : ℤ)
      → replays_left policy s.budgets.replays ≡ some n
      → pos 1 ≤ℤ n
      → AllowedIfOk idempotent s (replay_challenge {P = P} {T = T} s policy m)
  unfolding replay_challenge spend
  replay_challenge-Allowed idempotent policy m n left h = rw left (
      replayed policy n (omega arith) left h refl
        (record { url = refl; method = refl; omit_body = refl; redirected = refl }))
