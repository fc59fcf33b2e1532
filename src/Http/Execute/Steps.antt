-- ===== src/Http/Execute/Steps.antt =====
-- Every round of the loop that goes on makes an allowed transition.
use eazy_sdk.Prelude.{
  String, ◌≡◌, refl, sym, subst, Bool, true, false, Option, none, some, ℤ, pos, ◌≤ℤ◌,
}
use eazy_sdk.Http.Failure.{Failure, Result, ok, err}
use eazy_sdk.Http.Response.{NormalizedResponse, ResponseOutcome}
use eazy_sdk.Http.Attempts.{AttemptState, replays_left, Continue, Decision, continue, stop, fail}
use eazy_sdk.Http.Attempts.Transition.{
  SameTarget, Transition, retried, proposed, refreshed, redirected, replayed, Allowed, AllowedIfOk,
  transport_retry-Allowed, response_retry-Allowed, follow_redirect-Allowed, auth_refresh-Allowed,
  replay_challenge-Allowed,
}
use eazy_sdk.Http.Decide.{
  Tools, Action, SignalOutcome, ResponseDecisionInput, ResponseDecision, retry_transition,
  redirect_transition, reaction_transition, auth_refresh_transition, terminal, terminal_raw,
  rejected, decide_response,
}
use eazy_sdk.Http.Decide.Reasons.{Ensures, Justified}
use eazy_sdk.Http.Decide.Sound.{decide_response-Ensures}
use eazy_sdk.Http.Replay.{
  ReplayPolicy, ReplayedRequest, ensure_replay_allowed, ensure_replay_allowed-remaining,
}
use eazy_sdk.Http.Exec.{
  OnOk, Returns, Returns-pure, Returns-lift, Returns-any, Returns-gets, Returns-bind, Returns-then,
  Returns-seq, Returns-if, lift, gets,
}
use eazy_sdk.Http.Execute.{
  Runtime, Sent, answered, transport_error, Value, transport_failure, checked_signal,
  run_response_hooks, run_transport_hooks, or_key_error, reaction,
}
use eazy_sdk.Http.Execute.Run.{
  Round, settled, again, decision_input, route, respond, classify, attempt, recorrelate, commit,
  conclude, round,
}

retarget :
    {s t : AttemptState} (c : Option String)
    → SameTarget s t
    → SameTarget s (record t { correlation = c })
retarget c h = record {
  url = h.url;
  method = h.method;
  omit_body = h.omit_body;
  redirected = h.redirected;
}

or_key_error-OnOk : {A : Type 0} (o : Option A) → OnOk (λ a. o ≡ some a) (or_key_error o)
unfolding or_key_error
or_key_error-OnOk none = tt
or_key_error-OnOk (some a) = refl

AllowedIfOk-idempotent :
    {P M T : Type 0} {b c : Bool} (s : AttemptState) (r : Result (Decision P M T))
    → b ≡ c
    → AllowedIfOk c s r
    → AllowedIfOk b s r
AllowedIfOk-idempotent s r e h = subst (λ b. AllowedIfOk b s r) (sym e) h

Ensures-OnOk :
    {P M T : Type 0} (t : Tools) (i : ResponseDecisionInput P M T)
    (r : Result (ResponseDecision P M T))
    → Ensures t i r
    → OnOk (Justified t i) r
Ensures-OnOk t i (ok d) h = h
Ensures-OnOk t i (err e) h = tt

AllowedIfOk-Returns :
    {W P M T : Type 0} (b : Bool) (s : AttemptState) (r : Result (Decision P M T))
    → AllowedIfOk b s r
    → Returns {W = W} (Allowed b s) (lift r)
AllowedIfOk-Returns b s (ok d) h = Returns-lift (Allowed b s) (ok d) h
AllowedIfOk-Returns b s (err e) h = Returns-lift (Allowed b s) (err e) tt

remaining-OnOk :
    (policy : ReplayPolicy) (request : ReplayedRequest) (n : ℤ) (r : Result (Unit {0}))
    → ensure_replay_allowed policy request true (some n) ≡ r
    → OnOk (λ _. pos 1 ≤ℤ n) r
remaining-OnOk policy request n (ok tt) e = ensure_replay_allowed-remaining policy request true n e
remaining-OnOk policy request n (err x) e = tt

-- A new correlation changes nothing that a transition speaks of.
Transition-recorrelate :
    {idempotent : Bool} {s t : AttemptState} (c : Option String)
    → Transition idempotent s t
    → Transition idempotent s (record t { correlation = c })
Transition-recorrelate c (retried n i left b t) = retried n i left b (retarget c t)
Transition-recorrelate c (proposed n i b t) = proposed n i b (retarget c t)
Transition-recorrelate c (refreshed n i left b t) = refreshed n i left b (retarget c t)
Transition-recorrelate c (redirected n left b r) = redirected n left b r
Transition-recorrelate c (replayed p k n e left b t) = replayed p k n e left b (retarget c t)

module _ {W P M T : Type 0} (rt : Runtime W P M T) (s : AttemptState) where
  -- What a round that goes on does.
  abbrev pub Next : Round T → Type 0
  Next (settled v) = Unit
  Next (again t) = Transition rt.is_idempotent s t

  abbrev Goes : AttemptState → Type 0
  Goes = Transition rt.is_idempotent s

  abbrev Good : Decision P M (Value T) → Type 0
  Good = Allowed rt.is_idempotent s

  transport_failure-idempotent :
      (e : Failure) → Returns (λ o. o.idempotent ≡ rt.is_idempotent) (transport_failure rt s e)
  unfolding transport_failure
  transport_failure-idempotent e =
      Returns-then (λ o. o.idempotent ≡ rt.is_idempotent)
        (run_transport_hooks rt rt.transport_hooks s.number e false) _
        (λ b. Returns-pure (λ o. o.idempotent ≡ rt.is_idempotent) _ refl)

  reaction-Good : (m : M) → Returns Good (reaction rt s m)
  unfolding reaction
  reaction-Good m =
      let (identity, policy) = rt.policy_of m in
      Returns-then Good (gets (rt.replayed s)) _ λ request.
        Returns-bind (λ n. replays_left identity s.budgets.replays ≡ some n) Good
          (lift (or_key_error (replays_left identity s.budgets.replays))) _
          (Returns-lift _ _ (or_key_error-OnOk (replays_left identity s.budgets.replays)))
          λ n left.
            Returns-seq (pos 1 ≤ℤ n) Good
              (lift (ensure_replay_allowed policy request true (some n))) _
              (Returns-lift (λ _. pos 1 ≤ℤ n) _ (remaining-OnOk policy request n _ refl))
              λ h.
                AllowedIfOk-Returns rt.is_idempotent s _
                  (replay_challenge-Allowed P M (Value T) s rt.is_idempotent identity m n left h)

  route-Good :
      (r : NormalizedResponse) (p : Option (Action P)) (g : SignalOutcome M)
      (o : Option (ResponseOutcome T)) (w : W) (d : ResponseDecision P M T)
      → Justified rt.tools (decision_input rt s r p g o w) d
      → Returns Good (route rt s d)
  unfolding route decision_input
  route-Good r p g o w (retry_transition kind patch true) j =
      AllowedIfOk-Returns rt.is_idempotent s _ (
        AllowedIfOk-idempotent s _ j.1
          (response_retry-Allowed P M (Value T) s kind patch true (λ _. j.0.unit_left)))
  route-Good r p g o w (retry_transition kind patch false) j =
      AllowedIfOk-Returns rt.is_idempotent s _ (
        AllowedIfOk-idempotent s _ j.3
          (response_retry-Allowed P M (Value T) s kind patch false (λ x. cc)))
  route-Good r p g o w (redirect_transition url method omit_body) j =
      AllowedIfOk-Returns rt.is_idempotent s _
        (follow_redirect-Allowed P M (Value T) s rt.is_idempotent url method omit_body j.0)
  route-Good r p g o w (reaction_transition m) j = reaction-Good m
  route-Good r p g o w auth_refresh_transition j =
      AllowedIfOk-Returns rt.is_idempotent s _
        (AllowedIfOk-idempotent s _ j.1 (auth_refresh-Allowed P M (Value T) s j.0.unit_left))
  route-Good r p g o w (terminal v) j = Returns-pure Good _ tt
  route-Good r p g o w (terminal_raw x) j = Returns-pure Good _ tt
  route-Good r p g o w (rejected x) j = Returns-lift Good _ tt

  respond-Good : (r : NormalizedResponse) → Returns Good (respond rt s r)
  unfolding respond
  respond-Good r = Returns-then Good (rt.unprotect s r) _ λ clear.
      Returns-seq Unit Good (rt.store_cookies clear) _ (Returns-any _) λ _.
        Returns-then Good (run_response_hooks rt rt.response_hooks s.number clear none) _ λ hooked.
          Returns-then Good (rt.inspect_signals s hooked.0) _ λ found.
            Returns-then Good (lift (checked_signal found)) _ λ signal.
              Returns-then Good (rt.inspect s hooked.0) _ λ outcome.
                Returns-bind _ Good (gets (decision_input rt s hooked.0 hooked.1 signal outcome)) _
                  (Returns-gets _)
                  λ input read.
                    Returns-bind (Justified rt.tools input) Good
                      (lift (decide_response rt.tools input)) _
                      (Returns-lift _ _
                        (Ensures-OnOk rt.tools input _ (decide_response-Ensures rt.tools input)))
                      λ d j.
                        route-Good hooked.0 hooked.1 signal outcome read.0 d
                          (subst (λ i. Justified rt.tools i d) read.1 j)

  classify-Good : (x : Sent) → Returns Good (classify rt s x)
  unfolding classify
  classify-Good (answered r) = respond-Good r
  classify-Good (transport_error e) =
      Returns-bind (λ o. o.idempotent ≡ rt.is_idempotent) Good (transport_failure rt s e) _
        (transport_failure-idempotent e)
        λ o h.
          AllowedIfOk-Returns rt.is_idempotent s _
            (AllowedIfOk-idempotent s _ (sym h) (transport_retry-Allowed P M (Value T) s o))

  attempt-Good : Returns Good (attempt rt s)
  unfolding attempt
  attempt-Good = Returns-then Good (rt.send s) _ λ sent. classify-Good sent

  recorrelate-Next : (t : AttemptState) → Goes t → Returns Goes (recorrelate rt t)
  unfolding recorrelate
  recorrelate-Next t h =
      Returns-if Goes rt.regenerates _ _
        (Returns-then Goes rt.new_correlation _
          λ fresh. Returns-pure Goes _ (Transition-recorrelate fresh h))
        (Returns-pure Goes t h)

  commit-Next : (d : Continue P M) → Goes d.state → Returns Goes (commit rt d)
  unfolding commit
  commit-Next d h = Returns-seq Unit Goes _ _ (Returns-any _) λ _.
      Returns-seq Unit Goes _ _ (Returns-any _) λ _.
        Returns-seq Unit Goes _ _ (Returns-any _)
          λ _. Returns-seq Unit Goes _ _ (Returns-any _) λ _. recorrelate-Next d.state h

  conclude-Next : (d : Decision P M (Value T)) → Good d → Returns Next (conclude rt d)
  unfolding conclude
  conclude-Next (stop v) h = Returns-pure Next _ tt
  conclude-Next (fail e) h = Returns-lift Next _ tt
  conclude-Next (continue d) h =
      Returns-bind Goes Next (commit rt d) _ (commit-Next d h) λ t g. Returns-pure Next (again t) g

  -- A round that goes on makes an allowed transition, whatever the world does.
  pub round-Next : Returns Next (round rt s)
  unfolding round
  round-Next =
      Returns-seq Unit Next (rt.prepare s) _ (Returns-any _)
        λ _. Returns-bind Good Next (attempt rt s) _ attempt-Good λ d h. conclude-Next d h
