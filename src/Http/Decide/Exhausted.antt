-- ===== src/Http/Decide/Exhausted.antt =====
-- What `decide_response` does with a budget that is used up.
use eazy_sdk.Prelude.{◌≡◌, refl, false, [], pos, ◌≤ℤ◌, arith}
use eazy_sdk.Http.Decide.{
  Tools, ResponseDecisionInput, stale_session, decide_outcome, decide_page, decide_redirect,
  decide_auth, decide_retry, decide_response,
}

module _ {P M T : Type 0} (t : Tools) (i : ResponseDecisionInput P M T) where
  -- Only the first stages read the statuses and whether the session can be refreshed.
  decide_auth-statuses : decide_auth t i ≡ decide_auth t (record i { retry_statuses = [] })
  unfolding decide_auth decide_redirect decide_page decide_outcome stale_session
  decide_auth-statuses = refl

  decide_redirect-refreshable :
      decide_redirect t i ≡ decide_redirect t (record i { auth_refreshable = false })
  unfolding decide_redirect decide_page decide_outcome
  decide_redirect-refreshable = refl

  decide_auth-refreshable :
      i.auth_remaining ≤ℤ pos 0
      → decide_auth t i ≡ decide_auth t (record i { auth_refreshable = false })
  unfolding decide_auth stale_session
  decide_auth-refreshable h = ground (arith, decide_redirect-refreshable)

  -- Without transport retries left the response is decided as if no status were retried: a
  -- challenge, a refresh and a redirect are still open to it.
  pub transport_exhausted :
      i.transport_remaining ≤ℤ pos 0
      → decide_response t i ≡ decide_response t (record i { retry_statuses = [] })
  unfolding decide_response decide_retry
  transport_exhausted h = ground (arith, decide_auth-statuses)

  -- Without refreshes left it is decided as if the session could not be refreshed.
  pub auth_exhausted :
      i.auth_remaining ≤ℤ pos 0
      → decide_response t i ≡ decide_response t (record i { auth_refreshable = false })
  unfolding decide_response decide_retry
  auth_exhausted h = ground (arith, decide_auth-refreshable h)
