-- ===== src/Http/Options.antt =====
-- How hard a call tries: `RetryPolicy` and `CallOptions` of eazy_sdk/policies.py, `Resilience` of
-- eazy_sdk/clients/config.py, and `_budgets` of eazy_sdk/clients/executor.py. Delays and timeouts
-- are floats: whether the checks of an object accept them is a field.
use eazy_sdk.Prelude.{
  ℕ, ◌≡◌, String, Bool, true, not, ◌&&◌, ◌||◌, List, [], ◌∷◌, ℤ, pos, ◌+ℤ◌, ◌-ℤ◌, ◌≤ℤ◌, ltb_ℤ,
  leb_ℤ, sum_ℤ, All, +ℤ_parts, -ℤ_parts, eq_of_parts, arith,
}
use eazy_sdk.Http.Attempts.{AttemptBudgets, Replays, values, budgets_of, base}
use eazy_sdk.Http.Attempts.Chain.{IsSolvent}
use eazy_sdk.Http.Replay.{ReplayPolicy}
use eazy_sdk.Prelude.{str_eq}
use eazy_sdk.Dict.{put}
use eazy_sdk.Dict.Every.{put-All}

pub record RetryPolicy : Type 0 where
  pub max_attempts : ℤ
  pub retry_statuses : List ℕ
  pub delays_fit : Bool

-- `RetryPolicy.__post_init__`: `false` where it raises `ValueError`.
unfoldable pub accepts_policy : RetryPolicy → Bool
accepts_policy r = not (ltb_ℤ r.max_attempts (pos 1)) && r.delays_fit

-- `RetryPolicy.retries`
unfoldable pub retries : RetryPolicy → ℤ
retries r = r.max_attempts -ℤ pos 1

pub record CallOptions : Type 0 where
  pub max_attempts : ℤ
  pub transport_retries : ℤ
  pub auth_retries : ℤ
  pub max_redirects : ℤ
  pub retry : RetryPolicy
  pub client_redirects : Bool

-- `CallOptions.__post_init__`: `false` where it raises `ValueError`.
unfoldable pub accepts_options : CallOptions → Bool
accepts_options o =
    not (ltb_ℤ o.max_attempts (pos 1))
    && not (
        ltb_ℤ o.transport_retries (pos 0)
        || ltb_ℤ o.auth_retries (pos 0)
        || ltb_ℤ o.max_redirects (pos 0))
    && not (o.client_redirects && leb_ℤ o.max_redirects (pos 0) && leb_ℤ (pos 0) o.max_redirects)

pub record Resilience : Type 0 where
  pub retry : RetryPolicy
  pub auth_retries : ℤ
  pub max_redirects : ℤ
  pub client_redirects : Bool
  pub timeout_fits : Bool

-- `Resilience.__post_init__`
unfoldable pub accepts_resilience : Resilience → Bool
accepts_resilience r =
    not (ltb_ℤ r.auth_retries (pos 0) || ltb_ℤ r.max_redirects (pos 0))
    && not (r.client_redirects && leb_ℤ r.max_redirects (pos 0) && leb_ℤ (pos 0) r.max_redirects)
    && r.timeout_fits

-- `Resilience.call_options`
unfoldable pub call_options : Resilience → CallOptions
unfolding retries
call_options r = record {
  max_attempts = pos 1 +ℤ retries r.retry +ℤ r.auth_retries +ℤ r.max_redirects;
  transport_retries = retries r.retry;
  auth_retries = r.auth_retries;
  max_redirects = r.max_redirects;
  retry = r.retry;
  client_redirects = r.client_redirects;
}

-- `{item.identity: item.replay.max_replays for item in policies}`
unfoldable pub replays_of : List (String × ReplayPolicy) → Replays → Replays
unfolding put
replays_of [] replays = replays
replays_of ((identity, policy) ∷ rest) replays =
    replays_of rest (put str_eq identity policy.max_replays replays)

-- `_AttemptRun._budgets`, with the identity and the replay policy of each challenge policy.
unfoldable pub budgets : CallOptions → List (String × ReplayPolicy) → AttemptBudgets
budgets o policies =
    budgets_of o.max_attempts o.transport_retries o.auth_retries o.max_redirects
      (replays_of policies [])

-- `ReplayPolicy.__post_init__`, its check of the number of replays.
abbrev pub accepts_replays : ReplayPolicy → Bool
accepts_replays policy = not (ltb_ℤ policy.max_replays (pos 0))

replays_of-All :
    (policies : List (String × ReplayPolicy)) (replays : Replays)
    → All (λ p. accepts_replays p.1 ≡ true) policies
    → All (λ kv. pos 0 ≤ℤ kv.1) replays
    → All (λ kv. pos 0 ≤ℤ kv.1) (replays_of policies replays)
unfolding replays_of
replays_of-All [] replays a h = h
replays_of-All ((identity, policy) ∷ rest) replays a h =
    replays_of-All rest (put str_eq identity policy.max_replays replays) a.1
      (put-All str_eq (λ n. pos 0 ≤ℤ n) identity policy.max_replays replays (ground (arith, a.0)) h)

All-values :
    (replays : Replays) → All (λ kv. pos 0 ≤ℤ kv.1) replays → All (λ n. pos 0 ≤ℤ n) (values replays)
All-values [] a = tt
All-values (x ∷ replays) a = (a.0, All-values replays a.1)

retries-positive : (r : RetryPolicy) → accepts_policy r ≡ true → pos 0 ≤ℤ retries r
unfolding accepts_policy retries
retries-positive r h =
    let q : pos 1 ≤ℤ r.max_attempts = ground (arith, h) in
    ground (arith, q, -ℤ_parts r.max_attempts (pos 1))

sum_cancels : (a b c d : ℤ) → pos 1 +ℤ a +ℤ b +ℤ c +ℤ d -ℤ a -ℤ b -ℤ c -ℤ d ≡ pos 1
sum_cancels a b c d =
    let e1 = pos 1 +ℤ a in
    let e2 = e1 +ℤ b in
    let e3 = e2 +ℤ c in
    let e4 = e3 +ℤ d in
    let e5 = e4 -ℤ a in
    let e6 = e5 -ℤ b in
    let e7 = e6 -ℤ c in
    eq_of_parts (e7 -ℤ d) (pos 1) (
      omega (
        arith,
        +ℤ_parts (pos 1) a,
        +ℤ_parts e1 b,
        +ℤ_parts e2 c,
        +ℤ_parts e3 d,
        -ℤ_parts e4 a,
        -ℤ_parts e5 b,
        -ℤ_parts e6 c,
        -ℤ_parts e7 d,
      ))

-- The budgets of a call whose configuration was accepted are not negative, and leave one attempt
-- beyond all of them: the hard limit is one more than their sum.
pub budgets-IsSolvent :
    (r : Resilience) (policies : List (String × ReplayPolicy))
    → accepts_policy r.retry ≡ true
    → accepts_resilience r ≡ true
    → All (λ p. accepts_replays p.1 ≡ true) policies
    → IsSolvent (budgets (call_options r) policies)
      × (base (budgets (call_options r) policies) ≡ pos 1)
unfolding budgets call_options budgets_of base accepts_policy accepts_resilience
budgets-IsSolvent r policies p q a =
    let replays = replays_of policies [] in
    (
      (
        retries-positive r.retry (ground arith),
        ground arith,
        ground arith,
        All-values replays (replays_of-All policies [] a tt),
      ),
      sum_cancels (retries r.retry) r.auth_retries r.max_redirects (sum_ℤ (values replays)),
    )

-- The options that an accepted configuration gives are accepted by `CallOptions`, so that
-- `Resilience.call_options` does not raise.
pub call_options-accepted :
    (r : Resilience)
    → accepts_policy r.retry ≡ true
    → accepts_resilience r ≡ true
    → accepts_options (call_options r) ≡ true
unfolding call_options accepts_options accepts_policy accepts_resilience
call_options-accepted r p q =
    let retried = retries-positive r.retry p in
    let a : pos 0 ≤ℤ r.auth_retries = ground arith in
    let b : pos 0 ≤ℤ r.max_redirects = ground arith in
    let enough : pos 1 ≤ℤ pos 1 +ℤ retries r.retry +ℤ r.auth_retries +ℤ r.max_redirects = omega (
      arith,
      retried,
      a,
      b,
      +ℤ_parts (pos 1) (retries r.retry),
      +ℤ_parts (pos 1 +ℤ retries r.retry) r.auth_retries,
      +ℤ_parts (pos 1 +ℤ retries r.retry +ℤ r.auth_retries) r.max_redirects,
    ) in
    ground (arith, retried, a, b, enough)

sum-nonnegative : (l : List ℤ) → All (λ n. pos 0 ≤ℤ n) l → pos 0 ≤ℤ sum_ℤ l
unfolding sum_ℤ
sum-nonnegative [] a = omega arith
sum-nonnegative (n ∷ l) a = omega (arith, a.0, sum-nonnegative l a.1, +ℤ_parts n (sum_ℤ l))

-- The budgets of any call with accepted options and challenge policies are not negative, and its
-- hard limit leaves it an attempt.
pub options-IsSolvent :
    (o : CallOptions) (policies : List (String × ReplayPolicy))
    → accepts_options o ≡ true
    → All (λ p. accepts_replays p.1 ≡ true) policies
    → IsSolvent (budgets o policies) × (pos 1 ≤ℤ (budgets o policies).hard_limit)
unfolding budgets budgets_of accepts_options
options-IsSolvent o policies h a =
    let replays = replays_of policies [] in
    let left = All-values replays (replays_of-All policies [] a tt) in
    let more = sum-nonnegative (values replays) left in
    let one : pos 1 ≤ℤ o.max_attempts = ground (arith, h) in
    (
      (ground (arith, h), ground (arith, h), ground (arith, h), left),
      omega (arith, one, more, +ℤ_parts o.max_attempts (sum_ℤ (values replays))),
    )
