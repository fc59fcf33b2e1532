-- ===== src/Http/Decide.antt =====
-- `decide_response` of eazy_sdk/clients/_decisions.py. `urljoin` (urllib.parse), `str.lower` and
-- the page redirect of eazy_sdk/response/refresh.py, which reads HTML, are fields of `Tools`.
pub mod Reasons
pub mod Sound
pub mod Exhausted
use eazy_sdk.Prelude.{
  ℕ, String, Bool, true, false, not, ◌&&◌, ◌||◌, Option, none, some, List, [], ◌∷◌, ℤ, pos, ltb_ℤ,
  leb_ℤ, ◌==◌, elem, str_eq, if◌then◌else◌,
}
use eazy_sdk.Http.Failure.{
  unsafe_replay, redirect_limit, value_error, assertion, Result, ok, err, or_raise, require, ◌>>=◌,
  ◌>>◌,
}
use eazy_sdk.Http.Response.{
  get, NormalizedResponse, ResponseOutcome, success, error, unexpected, malformed,
}

pub record Tools : Type 0 where
  pub urljoin : String → String → Option String  -- none: `ValueError`
  pub lower : String → String
  pub meta_refresh_target : NormalizedResponse → Option (Option String)  -- none: `ValueError`

-- What a hook proposed: `RetryAttempt`, `RedirectTo`, or an object that is neither.
pub data Action (P : Type 0) : Type 0 where
  retry_attempt : P → String → Action P
  redirect_to : String → Action P
  other_action : Action P

-- `SignalMatch`, or one of the outcomes that are none.
pub data SignalOutcome (M : Type 0) : Type 0 where
  no_signal malformed_signal ambiguous_signal : SignalOutcome M
  signal_match : M → SignalOutcome M

pub record ResponseDecisionInput (P M T : Type 0) : Type 0 where
  pub response : NormalizedResponse
  pub proposed : Option (Action P)
  pub signal : SignalOutcome M
  pub outcome : Option (ResponseOutcome T)
  pub idempotent : Bool
  pub attempt : ℕ
  pub hard_attempt_limit : ℤ
  pub transport_remaining : ℤ
  pub retry_statuses : List ℕ
  pub redirect_remaining : ℤ
  pub auth_remaining : ℤ
  pub auth_refreshable : Bool
  pub current_url : String
  pub effective_method : String
  pub raw_response : Bool
  pub redirect_declared : Bool
  pub client_redirects : Bool

-- `TerminalResponse` holds the value of a success, or the response itself where it is raw.
pub data ResponseDecision (P M T : Type 0) : Type 0 where
  retry_transition : String → Option P → Bool → ResponseDecision P M T
  redirect_transition : String → Option String → Bool → ResponseDecision P M T
  reaction_transition : M → ResponseDecision P M T
  auth_refresh_transition : ResponseDecision P M T
  terminal : T → ResponseDecision P M T
  terminal_raw : NormalizedResponse → ResponseDecision P M T
  rejected : ResponseOutcome T → ResponseDecision P M T

abbrev pub redirect_statuses : List ℕ
redirect_statuses = 301 ∷ 302 ∷ 303 ∷ 307 ∷ 308 ∷ []

unfoldable pub require_redirect_budget : ℤ → Result (Unit {0})
require_redirect_budget remaining = require (not (leb_ℤ remaining (pos 0))) redirect_limit

unfoldable pub require_idempotent : Bool → Result (Unit {0})
require_idempotent idempotent = require idempotent unsafe_replay

-- `isinstance(outcome, ErrorOutcome) and outcome.case.reauth`
unfoldable pub asks_reauth : {T : Type 0} → Option (ResponseOutcome T) → Bool
asks_reauth (some (error reauth e)) = reauth
asks_reauth _ = false

-- `isinstance(outcome, UnexpectedOutcome | MalformedOutcome)`
unfoldable pub unread : {T : Type 0} → Option (ResponseOutcome T) → Bool
unread (some (unexpected e)) = true
unread (some (malformed e)) = true
unread _ = false

-- `isinstance(signal, SignalMatch)`
unfoldable pub is_match : {M : Type 0} → SignalOutcome M → Option M
is_match (signal_match m) = some m
is_match _ = none

-- Whether a redirect is repeated as a GET with no body.
unfoldable pub becomes_get : ℕ → String → Bool
becomes_get status method =
    status == 303 && not (str_eq method "HEAD")
    || elem status (301 ∷ 302 ∷ []) && str_eq method "POST"

module _ {P M T : Type 0} where
  unfoldable pub settle : Option (ResponseOutcome T) → Result (ResponseDecision P M T)
  settle none = err assertion
  settle (some (success v)) = ok (terminal v)
  settle (some o) = ok (rejected o)

  -- The last step: the outcome of the declared cases.
  unfoldable pub decide_outcome : ResponseDecisionInput P M T → Result (ResponseDecision P M T)
  decide_outcome i = if i.raw_response then ok (terminal_raw i.response) else settle i.outcome

  -- A page that no declared case could read may redirect by `<meta http-equiv="refresh">`.
  unfoldable pub decide_page : Tools → ResponseDecisionInput P M T → Result (ResponseDecision P M T)
  unfolding unread require_redirect_budget
  decide_page tools i =
      if i.client_redirects
        && not i.raw_response
        && i.response.status_code == 200
        && unread i.outcome
      then elim (tools.meta_refresh_target i.response) [
        | none ↦ err value_error
        | some none ↦ decide_outcome i
        | some (some target) ↦ if str_eq target i.current_url then decide_outcome i else do
          require_redirect_budget i.redirect_remaining
          ok (redirect_transition target (some "GET") true)
      ]
      else decide_outcome i

  -- A redirect status with a location, unless the operation declares a case on it.
  unfoldable pub decide_redirect :
      Tools → ResponseDecisionInput P M T → Result (ResponseDecision P M T)
  unfolding becomes_get require_redirect_budget
  decide_redirect tools i = elim (get tools.lower i.response.headers "location") [
    | none ↦ decide_page tools i
    | some location ↦
        if elem i.response.status_code redirect_statuses && not i.redirect_declared
        then (do
          require_redirect_budget i.redirect_remaining
          let rewrite = becomes_get i.response.status_code i.effective_method
          let from = if str_eq i.response.url "" then i.current_url else i.response.url
          url ← or_raise (tools.urljoin from location) value_error
          ok (redirect_transition url (if rewrite then some "GET" else none) rewrite))
        else decide_page tools i
  ]

  unfoldable pub stale_session : ResponseDecisionInput P M T → Bool
  unfolding asks_reauth
  stale_session i = i.response.status_code == 401 || asks_reauth i.outcome

  -- A rejected session is refreshed while that budget and the attempt limit allow it.
  unfoldable pub decide_auth : Tools → ResponseDecisionInput P M T → Result (ResponseDecision P M T)
  unfolding require_idempotent
  decide_auth tools i =
      if stale_session i
        && not (leb_ℤ i.auth_remaining (pos 0))
        && ltb_ℤ (pos i.attempt) i.hard_attempt_limit
        && i.auth_refreshable
      then (do require_idempotent i.idempotent; ok auth_refresh_transition)
      else decide_redirect tools i

  -- The retry policy of the transport, then a matched challenge.
  unfoldable pub decide_retry :
      Tools → ResponseDecisionInput P M T → Result (ResponseDecision P M T)
  unfolding is_match require_idempotent
  decide_retry tools i =
      if elem i.response.status_code i.retry_statuses
        && not (leb_ℤ i.transport_remaining (pos 0))
        && ltb_ℤ (pos i.attempt) i.hard_attempt_limit
      then (do require_idempotent i.idempotent; ok (retry_transition "response-retry" none true))
      else elim (is_match i.signal) [
        | some m ↦ ok (reaction_transition m)
        | none ↦ decide_auth tools i
      ]

  -- `decide_response`: a hook's proposal comes first.
  unfoldable pub decide_response :
      Tools → ResponseDecisionInput P M T → Result (ResponseDecision P M T)
  unfolding require_idempotent require_redirect_budget
  decide_response tools i = elim i.proposed [
    | none ↦ decide_retry tools i
    | some action ↦ elim action [
      | retry_attempt patch kind ↦ do
        require_idempotent i.idempotent
        ok (retry_transition kind (some patch) false)
      | redirect_to url ↦ do
        require_redirect_budget i.redirect_remaining
        target ← or_raise (tools.urljoin i.current_url url) value_error
        ok (redirect_transition target none false)
      | other_action ↦ decide_retry tools i
    ]
  ]
