-- ===== src/Http/Execute/Run.antt =====
-- `_AttemptRun._attempt`, `_respond`, `_route`, `_commit` and `execute` of
-- eazy_sdk/clients/executor.py. `execute` is a `while` loop: it takes fuel here.
use eazy_sdk.Prelude.{
  ℕ, zero, suc, String, true, false, Option, none, some, List, [], ◌∷◌, ◌&&◌, pos, leb_ℤ, elem,
  if◌then◌else◌,
}
use eazy_sdk.Http.Failure.{Failure, attempt_limit, assertion, Result, ok, err}
use eazy_sdk.Http.Response.{
  NormalizedResponse, ResponseOutcome, success, error, unexpected, malformed, ambiguous,
}
use eazy_sdk.Http.Attempts.{
  AttemptBudgets, AttemptState, initial, effective_method, Continue, Decision, continue, stop, fail,
}
use eazy_sdk.Http.Attempts.Policies.{transport_retry, response_retry, follow_redirect, auth_refresh}
use eazy_sdk.Http.Decide.{
  Action, SignalOutcome, ResponseDecision, ResponseDecisionInput, retry_transition,
  redirect_transition, reaction_transition, auth_refresh_transition, terminal, terminal_raw,
  rejected, redirect_statuses, decide_response,
}
use eazy_sdk.Http.Exec.{Exec, pure, lift, gets, ◌>>=◌, ◌>>◌}
use eazy_sdk.Http.Execute.{
  Runtime, Sent, answered, transport_error, Value, decoded, raw, transport_failure,
  run_response_hooks, checked_signal, reaction,
}

-- `outcome.unwrap()` of a rejected response raises.
unfoldable pub unwrap : {T : Type 0} → ResponseOutcome T → Failure
unwrap (success v) = assertion
unwrap (error reauth e) = e
unwrap (unexpected e) = e
unwrap (malformed e) = e
unwrap (ambiguous e) = e

-- What one round of the loop comes to: a result, or the state of the next attempt.
pub data Round (T : Type 0) : Type 0 where
  settled : Value T → Round T
  again : AttemptState → Round T

-- What a call came to, and the attempts that were started, in order. The result is `none` where
-- the fuel ran out.
pub record Trace (W T : Type 0) : Type 0 where
  pub result : Option (Result (Value T))
  pub world : W
  pub attempts : List AttemptState

module _ {W P M T : Type 0} (rt : Runtime W P M T) where
  -- The argument of `decide_response` as `_respond` builds it.
  unfoldable pub decision_input :
      AttemptState
      → NormalizedResponse
      → Option (Action P)
      → SignalOutcome M
      → Option (ResponseOutcome T)
      → W
      → ResponseDecisionInput P M T
  decision_input s response proposed signal outcome w = record {
    response = response;
    proposed = proposed;
    signal = signal;
    outcome = outcome;
    idempotent = rt.is_idempotent;
    attempt = s.number;
    hard_attempt_limit = s.budgets.hard_limit;
    transport_remaining = s.budgets.transport;
    retry_statuses = rt.retry_statuses;
    redirect_remaining = s.budgets.redirect;
    auth_remaining = s.budgets.auth;
    auth_refreshable = rt.auth_refreshable w;
    current_url = s.url;
    effective_method = effective_method s rt.method;
    raw_response = rt.raw_response;
    redirect_declared =
        elem response.status_code redirect_statuses && rt.declares response.status_code;
    client_redirects = rt.client_redirects;
  }

  -- `_route`: the owning policy turns a transition into a decision.
  unfoldable pub route : AttemptState → ResponseDecision P M T → Exec W (Decision P M (Value T))
  route s (retry_transition kind patch consumes_transport) =
      lift (response_retry s kind patch consumes_transport)
  route s (redirect_transition url method omit_body) = lift (follow_redirect s url method omit_body)
  route s (reaction_transition m) = reaction rt s m
  route s auth_refresh_transition = lift (auth_refresh s)
  route s (terminal v) = pure (stop (decoded v))
  route s (terminal_raw r) = pure (stop (raw r))
  route s (rejected o) = lift (err (unwrap o))

  -- `_respond`
  unfoldable pub respond : AttemptState → NormalizedResponse → Exec W (Decision P M (Value T))
  respond s sent_back = do
    clear ← rt.unprotect s sent_back
    rt.store_cookies clear
    (response, proposed) ← run_response_hooks rt rt.response_hooks s.number clear none
    found ← rt.inspect_signals s response
    signal ← lift (checked_signal found)
    outcome ← rt.inspect s response
    input ← gets (decision_input s response proposed signal outcome)
    decision ← lift (decide_response rt.tools input)
    route s decision

  -- What `_attempt` does with the handler's answer.
  unfoldable pub classify : AttemptState → Sent → Exec W (Decision P M (Value T))
  classify s (answered response) = respond s response
  classify s (transport_error e) = do
    failure ← transport_failure rt s e
    lift (transport_retry s failure)

  unfoldable pub attempt : AttemptState → Exec W (Decision P M (Value T))
  attempt s = do sent ← rt.send s; classify s sent

  unfoldable pub perform : {A : Type 0} → Option A → (A → Exec W (Unit {0})) → Exec W (Unit {0})
  perform none f = pure tt
  perform (some a) f = f a

  -- `_recorrelate`
  unfoldable pub recorrelate : AttemptState → Exec W AttemptState
  recorrelate s =
      if rt.regenerates
      then (do fresh ← rt.new_correlation; pure (record s { correlation = fresh }))
      else pure s

  -- `_commit`: the one effect that the policy asked for, then its state.
  unfoldable pub commit : Continue P M → Exec W AttemptState
  commit d = do
    perform d.patch rt.apply_patch
    perform d.wait_attempt rt.wait
    (if d.refresh_auth then rt.refresh_security else pure tt)
    perform d.reaction (λ m. rt.solve m d.state)
    recorrelate d.state

  unfoldable pub conclude : Decision P M (Value T) → Exec W (Round T)
  conclude (stop v) = pure (settled v)
  conclude (fail e) = lift (err e)
  conclude (continue d) = do s ← commit d; pure (again s)

  -- One round of the loop of `execute`.
  unfoldable pub round : AttemptState → Exec W (Round T)
  round s = do rt.prepare s; decision ← attempt s; conclude decision

  unfoldable pub started : AttemptState → Trace W T → Trace W T
  started s t = record t { attempts = s ∷ t.attempts }

  -- What the loop does with the outcome of a round; `next` is the rest of the loop.
  unfoldable pub proceed :
      AttemptState → Result (Round T) × W → (AttemptState → W → Trace W T) → Trace W T
  unfolding started
  proceed s (err e, w) next = record { result = some (err e); world = w; attempts = s ∷ [] }
  proceed s (ok (settled v), w) next = record { result = some (ok v); world = w; attempts = s ∷ [] }
  proceed s (ok (again t), w) next = started s (next t w)

  -- The loop of `execute`, from a state.
  unfoldable pub loop : ℕ → AttemptState → W → Trace W T
  loop zero s w = record { result = none; world = w; attempts = [] }
  loop (suc fuel) s w = elim (leb_ℤ (pos s.number) s.budgets.hard_limit) [
    | false ↦ record { result = some (err attempt_limit); world = w; attempts = [] }
    | true ↦ proceed s (round s w) (loop fuel)
  ]

  unfoldable pub launch : ℕ → String → AttemptBudgets → Result (Option String) × W → Trace W T
  launch fuel url budgets (err e, w) = record { result = some (err e); world = w; attempts = [] }
  launch fuel url budgets (ok correlation, w) = loop fuel (initial url budgets correlation) w

  -- `execute`: the initial state, with a fresh correlation, then the loop.
  unfoldable pub execute : ℕ → String → AttemptBudgets → W → Trace W T
  execute fuel url budgets w = launch fuel url budgets (rt.new_correlation w)
