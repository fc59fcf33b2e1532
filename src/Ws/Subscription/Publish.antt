-- ===== src/Ws/Subscription/Publish.antt =====
-- `_publish` and `__anext__` of eazy_sdk/websocket/subscriptions.py.
use eazy_sdk.Prelude.{
  ℕ, Bool, true, false, Option, none, some, List, [], ◌∷◌, ◌++◌, ◌==◌, if◌then◌else◌,
}
use eazy_sdk.Ws.Policies.{OverflowPolicy, overflow_fail, drop_oldest, drop_newest}
use eazy_sdk.Ws.Subscription.{
  Payload, SubscriptionError, recovery_gap, overflow_error, Event, SubscriptionState, active,
  resubscribing, recovering, QueueItem, event, terminal, Subscription, full, drop_first, fail,
  Position, no_position, position, bad, extract_position, skipped,
}

abbrev pub accepts : SubscriptionState → Bool
accepts active = true
accepts resubscribing = true
accepts recovering = true
accepts _ = false

abbrev same_generation : Option ℕ → ℕ → Bool
same_generation none g = false
same_generation (some r) g = r == g

-- The event that carries a value.
unfoldable pub event_of : Subscription → Payload → ℕ → Event
event_of s value generation = record {
  value = value;
  generation = generation;
  recovered = same_generation s.recovered_generation generation;
  last_position = s.last_position;
  gap = s.gap_pending;
}

-- What becomes of an event when the queue is full.
unfoldable pub overflowing : OverflowPolicy → Subscription → Event → Subscription × Bool
unfolding drop_first
overflowing drop_newest s e = (record s { gap_pending = true }, true)
overflowing drop_oldest s e = (
  record s {
    queue = drop_first s.queue ++ event (record e { gap = true }) ∷ [];
    gap_pending = false;
  },
  true,
)
overflowing overflow_fail s e = (fail s (overflow_error s.capacity), false)

unfoldable pub enqueue : Subscription → Event → Subscription × Bool
enqueue s e =
    if full s
    then overflowing s.overflow s e
    else (record s { queue = s.queue ++ event e ∷ []; gap_pending = false }, true)

unfoldable pub publish_at : Position → Subscription → Payload → ℕ → Subscription × Bool
unfolding event_of
publish_at (bad e) s value generation = (fail s e, false)
publish_at no_position s value generation = enqueue s (event_of s value generation)
publish_at (position v) s value generation = elim (skipped s.resubscribe s.last_position v) [
  | some (expected, received) ↦ (fail s (recovery_gap expected received generation), false)
  | none ↦ let s' = record s { last_position = some v } in enqueue s' (event_of s' value generation)
]

-- `_publish`: whether the subscription is still open.
unfoldable pub publish : Subscription → Payload → ℕ → Subscription × Bool
publish s value generation =
    if accepts s.state
    then publish_at (extract_position s.resubscribe value) s value generation
    else (s, false)

-- What `__anext__` gives: an event, the end, an error, or it waits.
pub data Next : Type 0 where
  waits ended : Next
  yields : Event → Next
  raises : SubscriptionError → Next

unfoldable pub next_item : QueueItem → Next
next_item (event e) = yields e
next_item (terminal none) = ended
next_item (terminal (some e)) = raises e

unfoldable pub anext_from : List QueueItem → Subscription → Next × Subscription
unfolding next_item
anext_from [] s = (waits, s)
anext_from (x ∷ q) s = (next_item x, record s { queue = q })

-- `__anext__`
unfoldable pub anext : Subscription → Next × Subscription
unfolding anext_from
anext s = anext_from s.queue s
