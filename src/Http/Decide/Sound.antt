-- ===== src/Http/Decide/Sound.antt =====
-- Why `decide_response` chose what it chose.
use eazy_sdk.Prelude.{
  ℕ, String, ◌≡◌, ◌≢◌, refl, ◌⊎◌, inl, inr, Bool, true, false, Option, none, some, pos, leb_ℤ, elem,
  arith, Bool-cases, Option-cases, str_eq, ◌&&◌, not, if◌then◌else◌, subst, ◌==◌,
}
use eazy_sdk.Http.Failure.{
  Failure, redirect_limit, value_error, Result, ok, err, or_raise, ◌>>=◌, ◌>>◌,
}
use eazy_sdk.Http.Response.{get, ResponseOutcome, success, unexpected, malformed}
use eazy_sdk.Http.Decide.{
  Tools, retry_attempt, redirect_to, other_action, signal_match, SignalOutcome,
  ResponseDecisionInput, ResponseDecision, redirect_transition, reaction_transition, terminal_raw,
  redirect_statuses, is_match, becomes_get, unread, stale_session, decide_outcome, decide_page,
  decide_redirect, decide_auth, decide_retry, decide_response, settle, require_redirect_budget,
}
use eazy_sdk.Http.Decide.Reasons.{
  Sends, UnreadPage, Wanted, by_hook, by_status, by_page, Retried, Refreshed, Quiet, Ensures,
}
use eazy_sdk.Prelude.{ltb_ℤ}

becomes_get-Sends :
    (status : ℕ) (current : String)
    → Sends status current
        (if becomes_get status current then some "GET" else none)
        (becomes_get status current)
unfolding becomes_get
becomes_get-Sends status current = ground arith

is_match-inv : {M : Type 0} (s : SignalOutcome M) (m : M) → is_match s ≡ some m → s ≡ signal_match m
unfolding is_match
is_match-inv (signal_match x) m e = ground (arith, e)
is_match-inv s m e = absurd (ground (arith, e))

module _ {P M T : Type 0} (t : Tools) (i : ResponseDecisionInput P M T) where
  -- What the stages of `decide_response` that come later rule out.
  abbrev NoStatus : Type 0
  NoStatus =
      (location : String)
      → elem i.response.status_code redirect_statuses ≡ true
      → i.redirect_declared ≡ false
      → get t.lower i.response.headers "location" ≡ some location
      → ⊥

  abbrev NoPage : Type 0
  NoPage =
      (target : String)
      → UnreadPage i
      → t.meta_refresh_target i.response ≡ some (some target)
      → str_eq target i.current_url ≡ false
      → ⊥

  none-Wanted :
      ((target : String) → i.proposed ≢ some (redirect_to target))
      → NoStatus
      → NoPage
      → (url method : Option String) (omit_body : Bool) → Wanted t i url method omit_body
      → ⊥
  none-Wanted h s g url method omit_body (by_hook target p u m o) = h target p
  none-Wanted h s g url method omit_body (by_status location from e d l f u m) = s location e d l
  none-Wanted h s g url method omit_body (by_page target page e n u m o) = g target page e n

  settle-Ensures :
      (o : Option (ResponseOutcome T))
      → Quiet t i
      → i.raw_response ≡ false
      → i.outcome ≡ o
      → Ensures t i (settle o)
  unfolding settle
  settle-Ensures none q raw e = (q, raw, e)
  settle-Ensures (some (success v)) q raw e = (q, raw, e)
  settle-Ensures (some o) q raw e = (q, raw, e, λ v p. cc)

  decide_outcome-Ensures : Quiet t i → Ensures t i (decide_outcome i)
  unfolding decide_outcome
  decide_outcome-Ensures q = elim (Bool-cases i.raw_response) [
    | inl raw ↦
        let same : ok (terminal_raw i.response) ≡ decide_outcome i = ground (arith, raw) in
        subst (Ensures t i) same (q, raw, refl)
    | inr raw ↦
        let same : settle i.outcome ≡ decide_outcome i = ground (arith, raw) in
        subst (Ensures t i) same (settle-Ensures i.outcome q raw refl)
  ]

  unread_by :
      (o : Option (ResponseOutcome T))
      → unread o ≡ true
      → (e : Failure) × ((o ≡ some (unexpected e)) ⊎ (o ≡ some (malformed e)))
  unfolding unread
  unread_by none h = absurd (ground (arith, h))
  unread_by (some (unexpected e)) h = (e, inl refl)
  unread_by (some (malformed e)) h = (e, inr refl)
  unread_by (some o) h = absurd (ground (arith, h))

  -- A redirect that is wanted is taken, or it is known why not.
  take : Option String → Option String → Bool → Result (ResponseDecision P M T)
  take url method omit_body =
      require_redirect_budget i.redirect_remaining
      >> (or_raise url value_error >>= λ u. ok (redirect_transition u method omit_body))

  take-Ensures :
      (url method : Option String) (omit_body : Bool)
      → Wanted t i url method omit_body
      → Ensures t i (take url method omit_body)
  unfolding take require_redirect_budget
  take-Ensures url method omit_body w = elim (Bool-cases (leb_ℤ i.redirect_remaining (pos 0))) [
    | inl spent ↦
        let raises : err redirect_limit ≡ take url method omit_body = ground (arith, spent) in
        subst (Ensures t i) raises (ground (arith, spent), (url, method, omit_body, w))
    | inr left ↦ elim (Option-cases url) [
      | inl n ↦
          let raises : err value_error ≡ take url method omit_body = ground (arith, left, n) in
          subst (Ensures t i) raises
            (inl (method, omit_body, subst (λ u. Wanted t i u method omit_body) n w))
      | inr u ↦
          let goes : ok (redirect_transition u.0 method omit_body) ≡ take url method omit_body =
            ground (arith, left, u.1) in
          subst (Ensures t i) goes
            (ground (arith, left), subst (λ x. Wanted t i x method omit_body) u.1 w)
    ]
  ]

  claims : UnreadPage i → unread i.outcome ≡ true
  unfolding unread
  claims page = elim (page.unclaimed.1) [ inl e ↦ ground (arith, e) | inr e ↦ ground (arith, e) ]

  decide_page-Ensures : (NoPage → Quiet t i) → Ensures t i (decide_page t i)
  unfolding decide_page take
  decide_page-Ensures quiet =
      elim (Bool-cases (
        i.client_redirects
        && not i.raw_response
        && i.response.status_code == 200
        && unread i.outcome)) [
          | inr n ↦
              let same : decide_outcome i ≡ decide_page t i = ground (arith, n) in
              let none_there : NoPage = λ target page e other.
                ground (arith, n, page.asked, page.decoded, page.status, claims page) in
              subst (Ensures t i) same (decide_outcome-Ensures (quiet none_there))
          | inl y ↦
              let page : UnreadPage i = record {
                asked = ground (arith, y);
                decoded = ground (arith, y);
                status = ground (arith, y);
                unclaimed = unread_by i.outcome (ground (arith, y));
              } in
              elim (Option-cases (t.meta_refresh_target i.response)) [
                | inl n ↦
                    let raises : err value_error ≡ decide_page t i = ground (arith, y, n) in
                    subst (Ensures t i) raises (inr (page, n))
                | inr (none, e) ↦
                    let same : decide_outcome i ≡ decide_page t i = ground (arith, y, e) in
                    subst (Ensures t i) same
                      (decide_outcome-Ensures (quiet λ target page e' other. ground (arith, e, e')))
                | inr (some target, e) ↦ elim (Bool-cases (str_eq target i.current_url)) [
                  | inl own ↦
                      let same : decide_outcome i ≡ decide_page t i = ground (arith, y, e, own) in
                      subst (Ensures t i) same (
                        decide_outcome-Ensures
                          (quiet λ target' page' e' other. ground (arith, e, e', own, other)))
                  | inr other ↦
                      let same : take (some target) (some "GET") true ≡ decide_page t i =
                        ground (arith, y, e, other) in
                      subst (Ensures t i) same (
                        take-Ensures (some target) (some "GET") true
                          (by_page target page e other refl refl refl))
                ]
              ]
        ]

  decide_redirect-Ensures : (NoStatus → NoPage → Quiet t i) → Ensures t i (decide_redirect t i)
  unfolding decide_redirect take
  decide_redirect-Ensures quiet = elim (Option-cases (get t.lower i.response.headers "location")) [
    | inl n ↦
        let same : decide_page t i ≡ decide_redirect t i = ground (arith, n) in
        subst (Ensures t i) same
          (decide_page-Ensures (quiet λ location s d l. ground (arith, n, l)))
    | inr (location, at) ↦
        elim (Bool-cases
          (elem i.response.status_code redirect_statuses && not i.redirect_declared)) [
            | inr n ↦
                let same : decide_page t i ≡ decide_redirect t i = ground (arith, at, n) in
                subst (Ensures t i) same
                  (decide_page-Ensures (quiet λ location s d l. ground (arith, n, s, d)))
            | inl y ↦
                let gets = becomes_get i.response.status_code i.effective_method in
                let from = if str_eq i.response.url "" then i.current_url else i.response.url in
                let same : take (t.urljoin from location) (if gets then some "GET" else none) gets
                    ≡ decide_redirect t i =
                  ground (arith, at, y) in
                subst (Ensures t i) same (
                  take-Ensures (t.urljoin from location) (if gets then some "GET" else none) gets (
                    by_status location from (ground (arith, y)) (ground (arith, y)) at
                      (ground arith) refl
                      (becomes_get-Sends i.response.status_code i.effective_method)))
          ]
  ]

  decide_auth-Ensures :
      ((Refreshed i → ⊥) → NoStatus → NoPage → Quiet t i) → Ensures t i (decide_auth t i)
  unfolding decide_auth
  decide_auth-Ensures quiet =
      elim (Bool-cases (
        stale_session i
        && not (leb_ℤ i.auth_remaining (pos 0))
        && ltb_ℤ (pos i.attempt) i.hard_attempt_limit
        && i.auth_refreshable)) [
          | inl y ↦ ground (arith, y)
          | inr n ↦
              let same : decide_redirect t i ≡ decide_auth t i = ground (arith, n) in
              let other : Refreshed i → ⊥ =
                λ r. ground (arith, n, r.stale, r.unit_left, r.attempt_left, r.refreshable) in
              subst (Ensures t i) same (decide_redirect-Ensures (quiet other))
        ]

  decide_retry-Ensures :
      ((p : P) (kind : String) → i.proposed ≢ some (retry_attempt p kind))
      → ((target : String) → i.proposed ≢ some (redirect_to target))
      → Ensures t i (decide_retry t i)
  unfolding decide_retry is_match
  decide_retry-Ensures no_retry no_redirect =
      elim (Bool-cases (
        elem i.response.status_code i.retry_statuses
        && not (leb_ℤ i.transport_remaining (pos 0))
        && ltb_ℤ (pos i.attempt) i.hard_attempt_limit)) [
          | inl y ↦ ground (arith, y)
          | inr n ↦
              let other : Retried i → ⊥ =
                λ r. ground (arith, n, r.status, r.unit_left, r.attempt_left) in
              elim (Option-cases (is_match i.signal)) [
                | inr m ↦
                    let same : ok (reaction_transition m.0) ≡ decide_retry t i =
                      ground (arith, n, m.1) in
                    subst (Ensures t i) same (is_match-inv i.signal m.0 m.1, other)
                | inl k ↦
                    let same : decide_auth t i ≡ decide_retry t i = ground (arith, n, k) in
                    subst (Ensures t i) same (
                      decide_auth-Ensures λ fresh status page. record {
                        no_proposal = no_retry;
                        not_retried = other;
                        no_match = λ m e. ground (arith, k, e);
                        not_refreshed = fresh;
                        no_redirect = none-Wanted no_redirect status page;
                      })
              ]
        ]

  pub decide_response-Ensures : Ensures t i (decide_response t i)
  unfolding decide_response take
  decide_response-Ensures = elim (Option-cases i.proposed) [
    | inl n ↦
        let same : decide_retry t i ≡ decide_response t i = ground (arith, n) in
        subst (Ensures t i) same (
          decide_retry-Ensures (λ p kind q. ground (arith, n, q))
            (λ target q. ground (arith, n, q)))
    | inr (retry_attempt p kind, e) ↦ ground (arith, e)
    | inr (redirect_to target, e) ↦
        let same : take (t.urljoin i.current_url target) none false ≡ decide_response t i =
          ground (arith, e) in
        subst (Ensures t i) same (
          take-Ensures (t.urljoin i.current_url target) none false
            (by_hook target e refl refl refl))
    | inr (other_action, e) ↦
        let same : decide_retry t i ≡ decide_response t i = ground (arith, e) in
        subst (Ensures t i) same (
          decide_retry-Ensures (λ p kind q. ground (arith, e, q))
            (λ target q. ground (arith, e, q)))
  ]
