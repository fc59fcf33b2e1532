-- ===== src/Http/Replay.antt =====
-- Replay policies of eazy_sdk/protection/advanced.py: whether a challenged request may be repeated.
use eazy_sdk.Prelude.{
  String, Bool, true, false, not, ◌||◌, ◌≡◌, ◌≤ℤ◌, arith, Option, none, some, ℤ, pos, leb_ℤ, str_eq,
}
use eazy_sdk.Http.Failure.{replay_denied, Result, ok, require, ◌>>◌}

pub data ReplaySafety : Type 0 where
  safe_method idempotency_key rejected_before_execution rejected_before_origin : ReplaySafety

pub data BodyReplayPolicy : Type 0 where
  require_replayable deny : BodyReplayPolicy

pub record ReplayPolicy : Type 0 where
  pub max_replays : ℤ
  pub safety : ReplaySafety
  pub proof_name : Option String
  pub body : BodyReplayPolicy

-- What `_ensure_replay_allowed` reads of the request: its method in upper case, whether its body is
-- buffered or replayable, and whether the header slot of a name holds a value.
pub record ReplayedRequest : Type 0 where
  pub method : String
  pub replayable : Bool
  pub carries : String → Bool

unfoldable pub denies_body : BodyReplayPolicy → Bool
denies_body deny = true
denies_body require_replayable = false

unfoldable pub is_safe_method : String → Bool
is_safe_method method = str_eq method "GET" || str_eq method "HEAD" || str_eq method "OPTIONS"

-- The proof that the policy's safety asks for.
unfoldable pub proven : ReplaySafety → Option String → ReplayedRequest → Bool
unfolding is_safe_method
proven safe_method proof r = is_safe_method r.method
proven idempotency_key none r = false
proven idempotency_key (some name) r = r.carries name
proven rejected_before_execution proof r = true
proven rejected_before_origin proof r = true

-- `_ensure_replay_allowed` with `origin_may_have_executed` and a remaining budget.
unfoldable pub ensure_replay_allowed :
    ReplayPolicy → ReplayedRequest → Bool → Option ℤ → Result (Unit {0})
unfolding denies_body proven
ensure_replay_allowed policy request origin_may_have_executed remaining = do
  require (not (leb_ℤ policy.max_replays (pos 0))) replay_denied
  require (elim remaining [ none ↦ true | some n ↦ not (leb_ℤ n (pos 0)) ]) replay_denied
  require (not (denies_body policy.body)) replay_denied
  require request.replayable replay_denied
  require (not origin_may_have_executed || proven policy.safety policy.proof_name request)
      replay_denied

-- A replay that is allowed has some of its budget left.
pub ensure_replay_allowed-remaining :
    (policy : ReplayPolicy) (request : ReplayedRequest) (executed : Bool) (n : ℤ)
    → ensure_replay_allowed policy request executed (some n) ≡ ok tt
    → pos 1 ≤ℤ n
unfolding ensure_replay_allowed
ensure_replay_allowed-remaining policy request executed n h = ground arith
