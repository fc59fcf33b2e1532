-- ===== src/Http/Attempts.antt =====
-- eazy_sdk/clients/attempts.py: one attempt, its budgets and the policies that decide whether
-- another one happens. Budgets are unbounded integers, as in the source: `spend` tests nothing.
pub mod Policies
pub mod Transition
pub mod Chain
use eazy_sdk.Prelude.{
  ℕ, ◌+◌, String, Bool, true, false, Option, none, some, List, [], ◌∷◌, map, ℤ, pos, ◌+ℤ◌, ◌-ℤ◌,
  sum_ℤ, str_eq, is_some, if◌then◌else◌,
}
use eazy_sdk.Http.Failure.{Failure, key_error, Result, ok, err}

-- `replays: Mapping[str, int]`, in the order of insertion.
abbrev pub Replays : Type 0
Replays = List (String × ℤ)

pub record AttemptBudgets : Type 0 where
  pub transport : ℤ
  pub auth : ℤ
  pub redirect : ℤ
  pub replays : Replays
  pub hard_limit : ℤ

abbrev pub values : Replays → List ℤ
values = map (λ (kv : String × ℤ). kv.1)

-- `AttemptBudgets.of`
unfoldable pub budgets_of : ℤ → ℤ → ℤ → ℤ → Replays → AttemptBudgets
budgets_of max_attempts transport_retries auth_retries max_redirects replays = record {
  transport = transport_retries;
  auth = auth_retries;
  redirect = max_redirects;
  replays = replays;
  hard_limit = max_attempts +ℤ sum_ℤ (values replays);
}

-- `AttemptBudgets.base`
unfoldable pub base : AttemptBudgets → ℤ
base b = b.hard_limit -ℤ b.transport -ℤ b.auth -ℤ b.redirect -ℤ sum_ℤ (values b.replays)

-- `replays[policy]`
unfoldable pub replays_left : String → Replays → Option ℤ
replays_left policy [] = none
replays_left policy ((name, n) ∷ rest) =
    if str_eq name policy then some n else replays_left policy rest

-- `remaining[policy] -= 1` on a copy, where the key is present.
unfoldable pub spend_replay : String → Replays → Replays
spend_replay policy [] = []
spend_replay policy ((name, n) ∷ rest) =
    if str_eq name policy then (name, n -ℤ pos 1) ∷ rest else (name, n) ∷ spend_replay policy rest

pub data Budget : Type 0 where
  transport auth redirect : Budget
  replay : String → Budget

-- `AttemptBudgets.spend`; a missing replay policy is a `KeyError`.
unfoldable pub spend : AttemptBudgets → Budget → Result AttemptBudgets
spend b transport = ok (record b { transport = b.transport -ℤ pos 1 })
spend b auth = ok (record b { auth = b.auth -ℤ pos 1 })
spend b redirect = ok (record b { redirect = b.redirect -ℤ pos 1 })
spend b (replay policy) =
    if is_some (replays_left policy b.replays)
    then ok (record b { replays = spend_replay policy b.replays })
    else err key_error

pub record AttemptState : Type 0 where
  pub number : ℕ
  pub kind : String
  pub url : String
  pub reason : String
  pub method : Option String
  pub omit_body : Bool
  pub redirected : Bool
  pub retries : ℕ
  pub budgets : AttemptBudgets
  pub correlation : Option String

-- `AttemptState.initial`
unfoldable pub initial : String → AttemptBudgets → Option String → AttemptState
initial url budgets correlation = record {
  number = 1;
  kind = "initial";
  url = url;
  reason = "first attempt";
  method = none;
  omit_body = false;
  redirected = false;
  retries = 0;
  budgets = budgets;
  correlation = correlation;
}

-- `AttemptState.next` with the one change that every caller makes, the reason.
unfoldable pub next : AttemptState → String → String → AttemptState
next s kind reason = record s { number = s.number + 1; kind = kind; reason = reason }

-- `self.method or declared`: an empty text is falsy too.
unfoldable pub effective_method : AttemptState → String → String
effective_method s declared = elim s.method [
  | none ↦ declared
  | some m ↦ if str_eq m "" then declared else m
]

-- `P` is the type of value patches, `M` that of matched signals.
pub record Continue (P M : Type 0) : Type 0 where
  pub state : AttemptState
  pub patch : Option P
  pub wait_attempt : Option ℕ
  pub refresh_auth : Bool
  pub reaction : Option M

pub data Decision (P M T : Type 0) : Type 0 where
  continue : Continue P M → Decision P M T
  stop : T → Decision P M T
  fail : Failure → Decision P M T

pub record TransportFailure : Type 0 where
  pub error : Failure
  pub proposed : Bool  -- `proposed is not None`
  pub idempotent : Bool
  pub retries_configured : Bool

abbrev pub plain : {P M : Type 0} → AttemptState → Continue P M
plain s = record {
  state = s;
  patch = none;
  wait_attempt = none;
  refresh_auth = false;
  reaction = none;
}
