-- ===== src/Http/Examples.antt =====
-- Calls of an example service, whose handler reads what it answers from a list.
use eazy_sdk.Http.Signals.{parsed_value, no_match, ResponseSignal, inspect_signals}
use eazy_sdk.Http.Signals.Winner
use eazy_sdk.Http.Signals.Winner.{inspect_signals-Ensures}
use eazy_sdk.Prelude.{◌≤ℤ◌, ℤ, ◌==◌, if◌then◌else◌}
use eazy_sdk.Http.Options.{
  Resilience, accepts_policy, accepts_resilience, call_options, budgets, budgets-IsSolvent,
  accepts_options, call_options-accepted, options-IsSolvent,
}
use eazy_sdk.Http.Attempts.{base}
use eazy_sdk.Prelude.{
  ℕ, suc, ◌<◌, ◌≤◌, ◌≡◌, ◌≢◌, refl, String, Bool, true, false, Option, none, some, List, [], ◌∷◌,
  length, All, pos, arith, elem, pos_part,
}
use eazy_sdk.Http.Failure.{raised, ok, err}
use eazy_sdk.Http.Response.{
  NormalizedResponse, ResponseOutcome, success, unexpected, headers_of, get,
}
use eazy_sdk.Http.Attempts.{AttemptBudgets, AttemptState, budgets_of, initial}
use eazy_sdk.Http.Attempts.Chain.{IsChain, IsSolvent, unsafe_units, Consecutive, RedirectOrReplay}
use eazy_sdk.Http.Decide.{
  Tools, no_signal, ResponseDecisionInput, decide_response, stale_session, is_match,
}
use eazy_sdk.Http.Decide.Reasons.{Ensures}
use eazy_sdk.Http.Decide.Exhausted.{transport_exhausted, auth_exhausted}
use eazy_sdk.Http.Replay.{ReplayPolicy, safe_method, require_replayable}
use eazy_sdk.Http.Exec.{Exec, pure, lift}
use eazy_sdk.Http.Execute.{Runtime, Sent, answered, Value}
use eazy_sdk.Http.Execute.Run.{
  execute, launch, loop, proceed, round, attempt, classify, respond, route, commit, conclude,
  perform, recorrelate, started, unwrap, decision_input,
}
use eazy_sdk.Http.Decide.{
  decide_retry, decide_auth, decide_redirect, decide_page, decide_outcome, settle,
  require_redirect_budget, require_idempotent, asks_reauth, unread, becomes_get,
}
use eazy_sdk.Http.Response.{getall, field_lines, joined}
use eazy_sdk.Http.Attempts.{spend_replay, replays_left, spend, next, effective_method}
use eazy_sdk.Prelude.{sum_ℤ, ◌+ℤ◌, ◌-ℤ◌}
use eazy_sdk.Http.Execute.{
  run_transport_hooks, run_response_hooks, transport_failure, checked_signal, or_key_error,
  reaction,
}
use eazy_sdk.Http.Attempts.Policies.{
  auth_refresh, follow_redirect, replay_challenge, response_retry, transport_retry,
}
use eazy_sdk.Http.Exec.{gets, modify, ◌>>=◌, ◌>>◌}
use eazy_sdk.Http.Execute.Bounds.{
  execute-IsChain, execute-total, execute-length, execute-IsSolvent, execute-unsafe,
}

abbrev tools : Tools
tools = record {
  urljoin = λ base location. some location;
  lower = λ text. text;
  meta_refresh_target = λ response. some none;
}

abbrev page : ℕ → List (String × String) → NormalizedResponse
page status fields = record {
  status_code = status;
  url = "https://api.example/items";
  headers = headers_of (λ text. text) fields;
  body = [];
}

-- The answers that are still to come.
abbrev World : Type 0
World = List Sent

abbrev send_next : AttemptState → Exec World Sent
send_next s [] = (err (raised 9), [])
send_next s (x ∷ w) = (ok x, w)

abbrev read_page : AttemptState → NormalizedResponse → Exec World (Option (ResponseOutcome ℕ))
read_page s response = pure (elim (elem response.status_code (200 ∷ [])) [
  | true ↦ some (success response.status_code)
  | false ↦ some (unexpected (raised response.status_code))
])

abbrev service : Bool → Runtime World ℕ ℕ ℕ
service idempotent = record {
  tools = tools;
  prepare = λ s. pure tt;
  send = send_next;
  unprotect = λ s response. pure response;
  store_cookies = λ response. pure tt;
  transport_hooks = [];
  response_hooks = [];
  inspect_signals = λ s response. pure no_signal;
  inspect = read_page;
  declares = λ status. false;
  is_idempotent = idempotent;
  method = "GET";
  raw_response = false;
  retry_statuses = 503 ∷ [];
  retries = true;
  client_redirects = false;
  auth_refreshable = λ w. false;
  policy_of = λ m. (
    "challenge",
    record {
      max_replays = pos 1;
      safety = safe_method;
      proof_name = none;
      body = require_replayable;
    },
  );
  replayed = λ s w. record { method = "GET"; replayable = true; carries = λ name. false };
  apply_patch = λ p. pure tt;
  wait = λ attempt. pure tt;
  refresh_security = pure tt;
  solve = λ m s. pure tt;
  regenerates = false;
  new_correlation = pure none;
}

abbrev url : String
url = "https://api.example/items"

-- A transport retry, a refresh and a redirect.
abbrev budgets_at_first : AttemptBudgets
budgets_at_first = budgets_of (pos 4) (pos 1) (pos 1) (pos 1) (("challenge", pos 1) ∷ [])

enough_fuel : pos_part budgets_at_first.hard_limit < 6
unfolding budgets_of sum_ℤ ◌+ℤ◌
enough_fuel = omega arith

budgets_at_first-IsSolvent : IsSolvent budgets_at_first
unfolding budgets_of
budgets_at_first-IsSolvent = ground arith

-- The service is out of order once, then redirects, then answers.
abbrev answers : World
answers =
    answered (page 503 [])
    ∷ answered (page 302 (("location", "https://api.example/moved") ∷ []))
    ∷ answered (page 200 [])
    ∷ []

run_returns_the_page :
    let run = execute (service true) 6 url budgets_at_first answers in
    (length run.attempts ≡ 3) × (run.result ≡ some (ok (Value.decoded 200)))
unfolding execute launch loop proceed round attempt classify respond route commit conclude perform
    recorrelate started unwrap decision_input run_transport_hooks run_response_hooks
    transport_failure checked_signal or_key_error reaction auth_refresh follow_redirect
    replay_challenge response_retry transport_retry decide_response ◌>>=◌ ◌>>◌ pure lift gets modify
    spend next initial effective_method budgets_of sum_ℤ ◌+ℤ◌ ◌-ℤ◌ headers_of get getall field_lines
    joined decide_retry decide_auth decide_redirect decide_page decide_outcome settle stale_session
    require_redirect_budget require_idempotent asks_reauth unread is_match becomes_get spend_replay
    replays_left
run_returns_the_page = (refl, refl)

-- The call of above, and one that is not idempotent.
execute-IsChain_example :
    (c : Option String) × IsChain true
      (initial url budgets_at_first c)
      (execute (service true) 6 url budgets_at_first answers).attempts
execute-IsChain_example = execute-IsChain (service true) 6 url budgets_at_first answers

execute-total_example : (execute (service true) 6 url budgets_at_first answers).result ≢ none
execute-total_example = execute-total (service true) 6 url budgets_at_first answers enough_fuel

execute-length_example :
    length (execute (service true) 6 url budgets_at_first answers).attempts
    ≤ pos_part budgets_at_first.hard_limit
execute-length_example = execute-length (service true) 6 url budgets_at_first answers

execute-IsSolvent_example :
    All (λ t. IsSolvent t.budgets) (execute (service true) 6 url budgets_at_first answers).attempts
execute-IsSolvent_example =
    execute-IsSolvent (service true) 6 url budgets_at_first answers budgets_at_first-IsSolvent

execute-unsafe_example :
    Consecutive RedirectOrReplay (execute (service false) 6 url budgets_at_first answers).attempts
    × (length (execute (service false) 6 url budgets_at_first answers).attempts
        ≤ suc (unsafe_units budgets_at_first))
execute-unsafe_example = execute-unsafe (service false) 6 url budgets_at_first answers refl

-- A redirect that no case declares, without a budget.
abbrev moved : ResponseDecisionInput ℕ ℕ ℕ
moved = record {
  response = page 302 (("location", "https://api.example/moved") ∷ []);
  proposed = none;
  signal = no_signal;
  outcome = some (unexpected (raised 302));
  idempotent = true;
  attempt = 0;
  hard_attempt_limit = pos 1;
  transport_remaining = pos 0;
  retry_statuses = 503 ∷ [];
  redirect_remaining = pos 0;
  auth_remaining = pos 0;
  auth_refreshable = true;
  current_url = url;
  effective_method = "GET";
  raw_response = false;
  redirect_declared = false;
  client_redirects = false;
}

transport_exhausted_example :
    decide_response tools moved ≡ decide_response tools (record moved { retry_statuses = [] })
transport_exhausted_example = transport_exhausted tools moved (omega arith)

auth_exhausted_example :
    decide_response tools moved ≡ decide_response tools (record moved { auth_refreshable = false })
auth_exhausted_example = auth_exhausted tools moved (omega arith)

-- Three attempts, a refresh and two redirects.
abbrev patient : Resilience
patient = record {
  retry = record { max_attempts = pos 3; retry_statuses = 503 ∷ []; delays_fit = true };
  auth_retries = pos 1;
  max_redirects = pos 2;
  client_redirects = true;
  timeout_fits = true;
}

abbrev challenges : List (String × ReplayPolicy)
challenges =
    (
      "challenge",
      record {
        max_replays = pos 2;
        safety = safe_method;
        proof_name = none;
        body = require_replayable;
      },
    )
    ∷ []

policy_is_accepted : accepts_policy patient.retry ≡ true
unfolding accepts_policy
policy_is_accepted = refl

patient_is_accepted : accepts_resilience patient ≡ true
unfolding accepts_resilience
patient_is_accepted = refl

budgets-IsSolvent_example :
    IsSolvent (budgets (call_options patient) challenges)
    × (base (budgets (call_options patient) challenges) ≡ pos 1)
budgets-IsSolvent_example =
    budgets-IsSolvent patient challenges policy_is_accepted patient_is_accepted (refl, tt)

call_options-accepted_example : accepts_options (call_options patient) ≡ true
call_options-accepted_example = call_options-accepted patient policy_is_accepted patient_is_accepted

options-IsSolvent_example :
    IsSolvent (budgets (call_options patient) challenges)
    × (pos 1 ≤ℤ (budgets (call_options patient) challenges).hard_limit)
options-IsSolvent_example =
    options-IsSolvent (call_options patient) challenges
      (call_options-accepted patient policy_is_accepted patient_is_accepted) (refl, tt)

-- Two signals that read a status, the second one with the higher priority.
abbrev reads : ℕ → ℤ → ResponseSignal ℕ ℕ ℕ
reads status priority = record {
  in_scope = λ scope. true;
  prefilter = none;
  try_parse = λ c. if c == status then parsed_value c else no_match;
  priority = priority;
  is_definitive = true;
}

inspect_signals-Ensures_example :
    Winner.Ensures 0 403
      (reads 403 (pos 1) ∷ reads 403 (pos 2) ∷ [])
      (inspect_signals 0 403 (reads 403 (pos 1) ∷ reads 403 (pos 2) ∷ []))
inspect_signals-Ensures_example =
    inspect_signals-Ensures 0 403 (reads 403 (pos 1) ∷ reads 403 (pos 2) ∷ [])
