-- ===== src/Ws/Replay.antt =====
-- The delivery loops of eazy_sdk/websocket/_outbound.py: `send` and `call` repeat one exchange
-- while the replay policy allows it. The exchange and the reconnect before a replay are
-- parameters.
pub mod AtMostOnce
use eazy_sdk.Prelude.{
  ℕ, zero, suc, ◌+◌, Bool, true, false, List, [], ◌∷◌, Option, none, some, if◌then◌else◌,
}
use eazy_sdk.Ws.Policies.{WsReplayPolicy, replay_allowed}

-- `_AttemptDeliveryFailure`; `timed_out` says that its cause is a `WsCallTimeoutError`.
pub record AttemptDeliveryFailure : Type 0 where
  pub cause : ℕ
  pub timed_out : Bool
  pub may_have_been_sent : Bool

-- One exchange returns, fails in delivery, or raises another exception.
pub data Exchange (A : Type 0) : Type 0 where
  delivered : A → Exchange A
  failed : AttemptDeliveryFailure → Exchange A
  broke : ℕ → Exchange A

pub data DeliveryError : Type 0 where
  delivery_unknown delivery_not_sent : DeliveryError
  reraised : ℕ → DeliveryError

-- `_raise_delivery`
unfoldable pub raise_delivery : AttemptDeliveryFailure → DeliveryError
raise_delivery f =
    if f.may_have_been_sent
    then if f.timed_out then reraised f.cause else delivery_unknown
    else delivery_not_sent

pub data Outcome (A : Type 0) : Type 0 where
  returned : A → Outcome A
  raised : DeliveryError → Outcome A

-- The outcome, `none` where the fuel ran out, and the exchanges that were made, in order.
pub record Run (W A : Type 0) : Type 0 where
  pub outcome : Option (Outcome A)
  pub world : W
  pub exchanges : List (Exchange A)

-- `exchange` is `_send_once` or `_call_once`; `prepare_replay` is `some` where it raises.
pub record Link (W A : Type 0) : Type 0 where
  pub exchange : W → Exchange A × W
  pub prepare_replay : W → Option ℕ × W

module _ {W A : Type 0} (link : Link W A) (policy : WsReplayPolicy) where
  unfoldable pub replay : AttemptDeliveryFailure → Option ℕ × W → (W → Run W A) → Run W A
  replay f (some e, w) next = record {
    outcome = some (raised (reraised e));
    world = w;
    exchanges = failed f ∷ [];
  }
  replay f (none, w) next = let r = next w in record r { exchanges = failed f ∷ r.exchanges }

  -- The body of the loop, with `next` for the rest of it.
  unfoldable pub handle : ℕ → Exchange A × W → (W → Run W A) → Run W A
  unfolding replay
  handle replays (delivered a, w) next = record {
    outcome = some (returned a);
    world = w;
    exchanges = delivered a ∷ [];
  }
  handle replays (broke e, w) next = record {
    outcome = some (raised (reraised e));
    world = w;
    exchanges = broke e ∷ [];
  }
  handle replays (failed f, w) next =
      if replay_allowed policy f.may_have_been_sent replays
      then replay f (link.prepare_replay w) next
      else record {
        outcome = some (raised (raise_delivery f));
        world = w;
        exchanges = failed f ∷ [];
      }

  unfoldable pub deliver : ℕ → ℕ → W → Run W A
  deliver zero replays w = record { outcome = none; world = w; exchanges = [] }
  deliver (suc fuel) replays w = handle replays (link.exchange w) (deliver fuel (replays + 1))
