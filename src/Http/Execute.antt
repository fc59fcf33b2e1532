-- ===== src/Http/Execute.antt =====
-- The coordinator of eazy_sdk/clients/executor.py: `_AttemptRun` prepares an attempt, sends it,
-- classifies what came back, asks the owning policy and commits its decision.
-- What the coordinator only calls (building and signing a request, the handler, hooks, solvers,
-- decryption, declared cases, the jar) is a field of `Runtime`, over a world `W`.
pub mod Run
pub mod Steps
pub mod Bounds
use eazy_sdk.Prelude.{
  ℕ, zero, suc, String, Bool, true, false, Option, none, some, List, [], ◌∷◌, pos, leb_ℤ, is_some,
  if◌then◌else◌,
}
use eazy_sdk.Http.Failure.{
  Failure, attempt_limit, key_error, challenge_parse, ambiguous_challenge, raised, Result, ok, err,
}
use eazy_sdk.Http.Response.{
  NormalizedResponse, ResponseOutcome, error, unexpected, malformed, ambiguous,
}
use eazy_sdk.Http.Attempts.{
  AttemptState, effective_method, replays_left, Continue, Decision, continue, stop, fail,
  TransportFailure,
}
use eazy_sdk.Http.Attempts.Policies.{
  transport_retry, response_retry, follow_redirect, auth_refresh, replay_challenge,
}
use eazy_sdk.Http.Decide.{
  Tools, Action, SignalOutcome, malformed_signal, ambiguous_signal, ResponseDecision,
  retry_transition, redirect_transition, reaction_transition, auth_refresh_transition, terminal,
  terminal_raw, rejected, redirect_statuses, decide_response,
}
use eazy_sdk.Http.Replay.{ReplayPolicy, ReplayedRequest, ensure_replay_allowed}
use eazy_sdk.Http.Exec.{Exec, pure, lift, gets, modify, ◌>>=◌, ◌>>◌}
use eazy_sdk.Prelude.{elem, ◌&&◌}

-- What a hook of the middleware answers; `pass` is `Continue` or `None`.
pub data HookDecision (P : Type 0) : Type 0 where
  pass : HookDecision P
  replace_response : NormalizedResponse → HookDecision P
  propose_action : Action P → HookDecision P
  fail_with : Failure → HookDecision P

-- What the handler does with a request; any other exception is an `err` of the action.
pub data Sent : Type 0 where
  answered : NormalizedResponse → Sent
  transport_error : Failure → Sent

-- The value of `ExecutionResult`: a decoded success, or the response where it is raw.
pub data Value (T : Type 0) : Type 0 where
  decoded : T → Value T
  raw : NormalizedResponse → Value T

pub record Runtime (W P M T : Type 0) : Type 0 where
  pub tools : Tools
  pub prepare : AttemptState → Exec W (Unit {0})
  pub send : AttemptState → Exec W Sent
  pub unprotect : AttemptState → NormalizedResponse → Exec W NormalizedResponse
  pub store_cookies : NormalizedResponse → Exec W (Unit {0})
  pub transport_hooks : List (ℕ → Failure → Exec W (HookDecision P))
  pub response_hooks : List (ℕ → NormalizedResponse → Exec W (HookDecision P))
  pub inspect_signals : AttemptState → NormalizedResponse → Exec W (SignalOutcome M)
  pub inspect : AttemptState → NormalizedResponse → Exec W (Option (ResponseOutcome T))
  pub declares : ℕ → Bool
  pub is_idempotent : Bool
  pub method : String
  pub raw_response : Bool
  pub retry_statuses : List ℕ
  pub retries : Bool  -- `bool(options.retry.retries)`
  pub client_redirects : Bool
  pub auth_refreshable : W → Bool
  -- the identity and the replay policy of the challenge policy that owns a match
  pub policy_of : M → String × ReplayPolicy
  pub replayed : AttemptState → W → ReplayedRequest
  pub apply_patch : P → Exec W (Unit {0})
  pub wait : ℕ → Exec W (Unit {0})
  pub refresh_security : Exec W (Unit {0})
  pub solve : M → AttemptState → Exec W (Unit {0})
  pub regenerates : Bool
  pub new_correlation : Exec W (Option String)

-- `_signal`: a malformed or an ambiguous challenge raises.
unfoldable pub checked_signal : {M : Type 0} → SignalOutcome M → Result (SignalOutcome M)
checked_signal malformed_signal = err challenge_parse
checked_signal ambiguous_signal = err ambiguous_challenge
checked_signal signal = ok signal

-- A lookup by key that raises `KeyError`.
unfoldable pub or_key_error : {A : Type 0} → Option A → Result A
or_key_error none = err key_error
or_key_error (some a) = ok a

module _ {W P M T : Type 0} (rt : Runtime W P M T) where
  -- The loop of `_transport_failure`: the last proposal stands.
  unfoldable pub run_transport_hooks :
      List (ℕ → Failure → Exec W (HookDecision P)) → ℕ → Failure → Bool → Exec W Bool
  run_transport_hooks [] n e proposed = pure proposed
  run_transport_hooks (hook ∷ hooks) n e proposed = do
    decision ← hook n e
    elim decision [
      | fail_with x ↦ lift (err x)
      | propose_action a ↦ run_transport_hooks hooks n e true
      | _ ↦ run_transport_hooks hooks n e proposed
    ]

  unfoldable pub transport_failure : AttemptState → Failure → Exec W TransportFailure
  transport_failure s e = do
    proposed ← run_transport_hooks rt.transport_hooks s.number e false
    pure (record {
      error = e;
      proposed = proposed;
      idempotent = rt.is_idempotent;
      retries_configured = rt.retries;
    })

  -- The loop of `_after_response`: hooks may replace the response and propose an action.
  unfoldable pub run_response_hooks :
      List (ℕ → NormalizedResponse → Exec W (HookDecision P))
      → ℕ
      → NormalizedResponse
      → Option (Action P)
      → Exec W (NormalizedResponse × Option (Action P))
  run_response_hooks [] n response proposed = pure (response, proposed)
  run_response_hooks (hook ∷ hooks) n response proposed = do
    decision ← hook n response
    elim decision [
      | fail_with x ↦ lift (err x)
      | replace_response r ↦ run_response_hooks hooks n r proposed
      | propose_action a ↦ run_response_hooks hooks n response (some a)
      | pass ↦ run_response_hooks hooks n response proposed
    ]

  -- `_reaction`: the policy that owns the signal allows the replay, or raises.
  unfoldable pub reaction : AttemptState → M → Exec W (Decision P M (Value T))
  reaction s m = do
    let (identity, policy) = rt.policy_of m
    request ← gets (rt.replayed s)
    remaining ← lift (or_key_error (replays_left identity s.budgets.replays))
    lift (ensure_replay_allowed policy request true (some remaining))
    lift (replay_challenge s identity m)
