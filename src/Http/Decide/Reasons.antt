-- ===== src/Http/Decide/Reasons.antt =====
-- The reasons for which `decide_response` may choose a transition, a result or an exception, said of
-- its input alone.
use eazy_sdk.Prelude.{
  ℕ, suc, String, ◌≡◌, ◌≢◌, ◌⊎◌, Bool, true, false, Option, none, some, pos, ◌≤ℤ◌, elem, str_eq,
}
use eazy_sdk.Http.Failure.{
  Failure, unsafe_replay, redirect_limit, value_error, assertion, Result, ok, err,
}
use eazy_sdk.Http.Response.{get, success, unexpected, malformed}
use eazy_sdk.Http.Decide.{
  Tools, retry_attempt, redirect_to, signal_match, ResponseDecisionInput, ResponseDecision,
  retry_transition, redirect_transition, reaction_transition, auth_refresh_transition, terminal,
  terminal_raw, rejected, redirect_statuses, stale_session,
}

-- The redirects that a client repeats as a GET, by status and method.
abbrev pub TurnsToGet : ℕ → String → Type 0
TurnsToGet status method =
    ((status ≡ 303) × (str_eq method "HEAD" ≡ false))
    ⊎ (((status ≡ 301) ⊎ (status ≡ 302)) × (str_eq method "POST" ≡ true))

-- What the next request sends: a GET with no body where the redirect turns to one, and else the
-- method and the body of before.
abbrev pub Sends : ℕ → String → Option String → Bool → Type 0
Sends status current method true = (method ≡ some "GET") × TurnsToGet status current
Sends status current method false = (method ≡ none) × (TurnsToGet status current → ⊥)

module _ {P M T : Type 0} where
  -- A page that no declared case could read, on a client that follows such pages.
  pub record UnreadPage (i : ResponseDecisionInput P M T) : Type 0 where
    pub asked : i.client_redirects ≡ true
    pub decoded : i.raw_response ≡ false
    pub status : i.response.status_code ≡ 200
    pub unclaimed :
        (e : Failure) × ((i.outcome ≡ some (unexpected e)) ⊎ (i.outcome ≡ some (malformed e)))

  -- Who asks for a redirect, and to where: `none` where the address cannot be parsed.
  pub data Wanted (t : Tools) (i : ResponseDecisionInput P M T) (url : Option String)
      (method : Option String) (omit_body : Bool) : Type 0 where
    by_hook :
        (target : String)
        → i.proposed ≡ some (redirect_to target)
        → url ≡ t.urljoin i.current_url target
        → method ≡ none
        → omit_body ≡ false
        → Wanted t i url method omit_body
    by_status :
        (location from : String)
        → elem i.response.status_code redirect_statuses ≡ true
        → i.redirect_declared ≡ false
        → get t.lower i.response.headers "location" ≡ some location
        → ((str_eq i.response.url "" ≡ true) × (from ≡ i.current_url))
          ⊎ ((str_eq i.response.url "" ≡ false) × (from ≡ i.response.url))
        → url ≡ t.urljoin from location
        → Sends i.response.status_code i.effective_method method omit_body
        → Wanted t i url method omit_body
    by_page :
        (target : String)
        → UnreadPage i
        → t.meta_refresh_target i.response ≡ some (some target)
        → str_eq target i.current_url ≡ false
        → url ≡ some target
        → method ≡ some "GET"
        → omit_body ≡ true
        → Wanted t i url method omit_body

  -- The retry policy covers the status, with a unit and an attempt left.
  pub record Retried (i : ResponseDecisionInput P M T) : Type 0 where
    pub status : elem i.response.status_code i.retry_statuses ≡ true
    pub unit_left : pos 1 ≤ℤ i.transport_remaining
    pub attempt_left : pos (suc i.attempt) ≤ℤ i.hard_attempt_limit

  -- The session is rejected and can be refreshed, with a unit and an attempt left.
  pub record Refreshed (i : ResponseDecisionInput P M T) : Type 0 where
    pub stale : stale_session i ≡ true
    pub unit_left : pos 1 ≤ℤ i.auth_remaining
    pub attempt_left : pos (suc i.attempt) ≤ℤ i.hard_attempt_limit
    pub refreshable : i.auth_refreshable ≡ true

  -- Nothing asks for another attempt: no hook, status, challenge, session, location or page.
  pub record Quiet (t : Tools) (i : ResponseDecisionInput P M T) : Type 0 where
    pub no_proposal : (p : P) (kind : String) → i.proposed ≢ some (retry_attempt p kind)
    pub not_retried : Retried i → ⊥
    pub no_match : (m : M) → i.signal ≢ signal_match m
    pub not_refreshed : Refreshed i → ⊥
    pub no_redirect :
        (url method : Option String) (omit_body : Bool) → Wanted t i url method omit_body → ⊥

  -- The reasons that the source gives for each decision. A result or a rejection is the last one:
  -- nothing may ask for another attempt.
  abbrev pub Justified : Tools → ResponseDecisionInput P M T → ResponseDecision P M T → Type 0
  Justified t i (retry_transition kind patch true) = Retried i × (i.idempotent ≡ true)
  Justified t i (retry_transition kind patch false) =
      (p : P) × (i.proposed ≡ some (retry_attempt p kind))
      × (patch ≡ some p)
      × (i.idempotent ≡ true)
  Justified t i (redirect_transition url method omit_body) =
      (pos 1 ≤ℤ i.redirect_remaining) × Wanted t i (some url) method omit_body
  Justified t i (reaction_transition m) = (i.signal ≡ signal_match m) × (Retried i → ⊥)
  Justified t i auth_refresh_transition = Refreshed i × (i.idempotent ≡ true)
  Justified t i (terminal v) = Quiet t i × (i.raw_response ≡ false) × (i.outcome ≡ some (success v))
  Justified t i (terminal_raw r) = Quiet t i × (i.raw_response ≡ true) × (r ≡ i.response)
  Justified t i (rejected o) =
      Quiet t i × (i.raw_response ≡ false) × (i.outcome ≡ some o) × ((v : T) → o ≢ success v)

  -- The reason for what it raises: a repeat or a redirect that was asked for, and what forbids it.
  abbrev pub Blamed : Tools → ResponseDecisionInput P M T → Failure → Type 0
  Blamed t i unsafe_replay =
      (i.idempotent ≡ false)
      × (((p : P) × (kind : String) × (i.proposed ≡ some (retry_attempt p kind)))
          ⊎ (Retried i ⊎ Refreshed i))
  Blamed t i redirect_limit =
      (i.redirect_remaining ≤ℤ pos 0)
      × ((url : Option String) × (method : Option String) × (omit_body : Bool) × Wanted t i url
            method omit_body)
  Blamed t i value_error =
      ((method : Option String) × (omit_body : Bool) × Wanted t i none method omit_body)
      ⊎ (UnreadPage i × (t.meta_refresh_target i.response ≡ none))
  Blamed t i assertion = Quiet t i × (i.raw_response ≡ false) × (i.outcome ≡ none)
  Blamed t i e = ⊥

  abbrev pub Ensures :
      Tools → ResponseDecisionInput P M T → Result (ResponseDecision P M T) → Type 0
  Ensures t i (ok d) = Justified t i d
  Ensures t i (err e) = Blamed t i e
