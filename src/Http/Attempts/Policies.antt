-- ===== src/Http/Attempts/Policies.antt =====
-- The policies of eazy_sdk/clients/attempts.py: each reads a state and returns the next one, the
-- reason that it chose it and the effect that is still to be performed.
use Prim.Native.String.{◌++◌ as str_append}
use eazy_sdk.Prelude.{
  ◌+◌, String, Bool, true, false, not, ◌&&◌, ◌||◌, Option, none, some, pos, leb_ℤ, if◌then◌else◌,
}
use eazy_sdk.Http.Failure.{unsafe_replay, Result, ok, ◌>>=◌}
use eazy_sdk.Http.Attempts.{
  Budget, spend, AttemptState, next, Decision, continue, fail, TransportFailure, plain,
}

module _ {P M T : Type 0} where
  -- `TransportRetryPolicy.decide`
  unfoldable pub transport_retry : AttemptState → TransportFailure → Result (Decision P M T)
  unfolding next
  transport_retry s o =
      if leb_ℤ s.budgets.transport (pos 0) && not o.proposed
      then ok (fail o.error)
      else if not o.idempotent
      then ok (fail (if o.retries_configured then unsafe_replay else o.error))
      else if leb_ℤ s.budgets.transport (pos 0)
      then ok (continue (plain (next s "transport-retry" "middleware proposed a replay")))
      else do
        left ← spend s.budgets Budget.transport
        let s' = next s "transport-retry" "transport error, retry budget"
        ok (
            continue (record {
              state = record s' { budgets = left; retries = s.retries + 1 };
              patch = none;
              wait_attempt = some (s.retries + 1);
              refresh_auth = false;
              reaction = none;
            }))

  -- `ResponseRetryPolicy.decide`
  unfoldable pub response_retry : AttemptState → String → Option P → Bool → Result (Decision P M T)
  unfolding next
  response_retry s kind patch consumes_transport =
      if not consumes_transport
      then ok (
          continue (record {
            state = next s kind "middleware proposed a replay";
            patch = patch;
            wait_attempt = none;
            refresh_auth = false;
            reaction = none;
          }))
      else do
        left ← spend s.budgets Budget.transport
        let s' = next s kind "retryable response status"
        ok (
            continue (record {
              state = record s' { budgets = left; retries = s.retries + 1 };
              patch = patch;
              wait_attempt = some (s.retries + 1);
              refresh_auth = false;
              reaction = none;
            }))

  -- `RedirectPolicy.decide`
  unfoldable pub follow_redirect :
      AttemptState → String → Option String → Bool → Result (Decision P M T)
  unfolding next
  follow_redirect s url method omit_body = do
    left ← spend s.budgets Budget.redirect
    let s' = next s "redirect" "redirect response"
    ok (
        continue (
          plain (record s' {
            budgets = left;
            url = url;
            redirected = true;
            method = elim method [ none ↦ s.method | some m ↦ some m ];
            omit_body = s.omit_body || omit_body;
          })))

  -- `AuthRefreshPolicy.decide`
  unfoldable pub auth_refresh : AttemptState → Result (Decision P M T)
  unfolding next
  auth_refresh s = do
    left ← spend s.budgets Budget.auth
    let s' = next s "auth-refresh" "authentication rejected"
    ok (
        continue (record {
          state = record s' { budgets = left };
          patch = none;
          wait_attempt = none;
          refresh_auth = true;
          reaction = none;
        }))

  -- `ProtectionPolicy.decide`
  unfoldable pub replay_challenge : AttemptState → String → M → Result (Decision P M T)
  unfolding next
  replay_challenge s policy match = do
    left ← spend s.budgets (Budget.replay policy)
    let s' = next s "reaction" (str_append "protection challenge: " policy)
    ok (
        continue (record {
          state = record s' { budgets = left };
          patch = none;
          wait_attempt = none;
          refresh_auth = false;
          reaction = some match;
        }))
