-- ===== src/Ws/Subscription/Calls.antt =====
-- The methods of a subscription, as the calls of its connection and of its consumer.
use eazy_sdk.Prelude.{ℕ, Bool}
use eazy_sdk.Ws.Subscription.{
  Payload, SubscriptionError, Subscription, fail, complete, aclose, mark_disconnected,
  mark_restoring, mark_active,
}
use eazy_sdk.Ws.Subscription.Publish.{publish, anext}

-- A call of a method: by the connection, or by the consumer of the iterator.
pub data Op : Type 0 where
  published : Payload → ℕ → Op
  received completed_by_server closed_by_caller lost activated : Op
  failed_with : SubscriptionError → Op
  restored : ℕ → Bool → Op

unfoldable pub step : Op → Subscription → Subscription
step (published value generation) s = (publish s value generation).0
step received s = (anext s).1
step completed_by_server s = complete s
step closed_by_caller s = aclose s
step lost s = mark_disconnected s
step activated s = mark_active s
step (failed_with e) s = fail s e
step (restored generation recovered) s = mark_restoring s generation recovered
