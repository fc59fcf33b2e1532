-- ===== src/Ws/Client/Failure.antt =====
-- eazy_sdk/websocket/_reconnect.py: what a failure does to the writes, the calls and the
-- subscriptions of a client. A message of an error is the cause that it was made from, by
-- identity.
use eazy_sdk.Prelude.{
  ℕ, Bool, true, false, not, ◌&&◌, ◌||◌, Option, none, some, List, [], ◌∷◌, ◌++◌, ◌==◌, get_elem?,
  map, if◌then◌else◌,
}
use eazy_sdk.Ws.Replay.{AttemptDeliveryFailure}
use eazy_sdk.Ws.Decisions.{
  SessionState, idle, reconnecting, closing, closed, failed, FailureState, to_failed,
  to_reconnecting, to_idle, failure_state, DisconnectAction, retain, disconnect_action,
}
use eazy_sdk.Ws.Subscription.{Subscription, SubscriptionError, given, fail, mark_disconnected}
use eazy_sdk.Ws.Client.{
  Client, WriteItem, PendingExchange, SubscriptionRecord, PendingKey, write_failed, unanswered,
  undelivered, alter, alter_all, settle_write, settle_active,
}
use eazy_sdk.Ws.Client.Table.{subscription_records, remove_subscription}

-- No cause of a failed connection is a `WsCallTimeoutError`.
abbrev pub delivery_failure : ℕ → Bool → AttemptDeliveryFailure
delivery_failure cause sent = record { cause = cause; timed_out = false; may_have_been_sent = sent }

unfoldable pub fail_write : ℕ → WriteItem → WriteItem
unfolding settle_write
fail_write cause item = settle_write (write_failed (delivery_failure cause item.started)) item

unfoldable pub fail_reply : ℕ → PendingExchange → PendingExchange
fail_reply cause p = elim (p.reply) [
  | unanswered ↦ record p { reply = undelivered (delivery_failure cause p.send_started) }
  | _ ↦ p
]

abbrev pub active_places : Option ℕ → List ℕ
active_places none = []
active_places (some i) = i ∷ []

abbrev pub queue_places : Option (List ℕ) → List ℕ
queue_places none = []
queue_places (some queue) = queue

abbrev pub pending_places : List (PendingKey × ℕ) → List ℕ
pending_places pending = map (λ (kv : PendingKey × ℕ). kv.1) pending

abbrev emptied : Option (List ℕ) → Option (List ℕ)
emptied none = none
emptied (some queue) = some []

-- `_fail_outstanding`
unfoldable pub fail_outstanding : ℕ → Client → Client
unfolding alter_all fail_write fail_reply
fail_outstanding cause c = record c {
  items =
      alter_all (fail_write cause) (active_places c.active_write ++ queue_places c.queue) c.items;
  queue = emptied c.queue;
  exchanges = alter_all (fail_reply cause) (pending_places c.pending) c.exchanges;
  pending = [];
}

-- A change of the subscription of a record.
unfoldable pub change_subscription :
    (Subscription → Subscription) → SubscriptionRecord → SubscriptionRecord
change_subscription f r = record r { subscription = f r.subscription }

-- `record.subscription._fail(…)`, then `_remove_subscription(record)`
unfoldable pub fail_subscription : SubscriptionError → ℕ → Client → Client
unfolding change_subscription alter remove_subscription
fail_subscription e i c =
    remove_subscription i
      record c { records = alter (change_subscription λ s. fail s e) i c.records }

unfoldable pub fail_subscriptions : SubscriptionError → List ℕ → Client → Client
unfolding fail_subscription
fail_subscriptions e [] c = c
fail_subscriptions e (i ∷ rest) c = fail_subscriptions e rest (fail_subscription e i c)

-- The body of the first loop of `_disconnect_subscriptions`, and whether the record is retained.
unfoldable pub disconnect_one : ℕ → Bool → Bool → ℕ → Client → Client × Bool
unfolding change_subscription alter fail_subscription disconnect_action
disconnect_one cause fatal reconnect i c = elim (get_elem? c.records i) [
  | none ↦ (c, false)
  | some r ↦ elim (disconnect_action r.subscription.resubscribe fatal reconnect) [
    | retain ↦
        (record c { records = alter (change_subscription mark_disconnected) i c.records }, true)
    | _ ↦ (fail_subscription (given cause) i c, false)
  ]
]

unfoldable pub disconnect_each : ℕ → Bool → Bool → List ℕ → Client → Client × Bool
unfolding disconnect_one
disconnect_each cause fatal reconnect [] c = (c, false)
disconnect_each cause fatal reconnect (i ∷ rest) c =
    let one = disconnect_one cause fatal reconnect i c in
    let more = disconnect_each cause fatal reconnect rest one.0 in (more.0, one.1 || more.1)

abbrev pub is_retain : DisconnectAction → Bool
is_retain retain = true
is_retain _ = false

abbrev pub no_delays : List ℕ → Bool
no_delays [] = true
no_delays (d ∷ delays) = false

-- `_disconnect_subscriptions`
unfoldable pub disconnect_subscriptions : ℕ → Bool → Bool → Client → Client × Bool
unfolding disconnect_each fail_subscriptions subscription_records
disconnect_subscriptions cause fatal reconnect c =
    let each = disconnect_each cause fatal reconnect (subscription_records c) c in
    if each.1 && no_delays c.delays
    then (fail_subscriptions (given cause) (subscription_records each.0) each.0, false)
    else each

abbrev pub is_ending : SessionState → Bool
is_ending closing = true
is_ending closed = true
is_ending _ = false

abbrev pub session_of : FailureState → SessionState
session_of to_failed = failed
session_of to_reconnecting = reconnecting
session_of to_idle = idle

-- `_fail_connection`, the calls that cancel tasks left out.
unfoldable pub fail_connection : ℕ → ℕ → Bool → Bool → Client → Client
unfolding fail_outstanding disconnect_subscriptions failure_state
fail_connection cause generation fatal reconnect c =
    if not (generation == c.generation) || is_ending c.session
    then c
    else let out = disconnect_subscriptions cause fatal reconnect (
        fail_outstanding cause record c { session = session_of (failure_state fatal reconnect) }) in
      if out.1 then record out.0 { reconnect_scheduled = true } else out.0

-- `_writer_loop`, after a send that raised.
unfoldable pub break_write : ℕ → ℕ → Client → Client
unfolding settle_active fail_connection
break_write cause generation c =
    let broken = settle_active (write_failed (delivery_failure cause true)) c in
    record (fail_connection cause generation false true broken) { active_write = none }

-- The end of `_reconnect_loop`, once the delays are used up.
unfoldable pub give_up : ℕ → Client → Client
unfolding fail_subscriptions subscription_records
give_up cause c =
    fail_subscriptions (given cause) (subscription_records c)
      record c { session = failed; reconnect_scheduled = false }
