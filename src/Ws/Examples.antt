-- ===== src/Ws/Examples.antt =====
-- Runs of a link that fails twice, messages for the reader, and a subscription of two events.
use eazy_sdk.Prelude.{ℤ, pos, ◌≤ℤ◌, ◌+ℤ◌}
use eazy_sdk.Ws.Policies.{recover_by_sequence}
use eazy_sdk.Ws.Subscription.{
  Payload, int, dict, position, read_position, sequence_position, skipped,
}
use eazy_sdk.Ws.Subscription.Gaps.{publish_without_gap}
use eazy_sdk.Prelude.{
  ℕ, zero, suc, ◌<◌, ◌≤◌, ◌≡◌, ◌≢◌, refl, true, false, none, some, List, [], ◌∷◌, ◌++◌, length,
  arith, ◌⊎◌, ◌↔◌, is_some,
}
use eazy_sdk.Ws.Policies.{replay_if_unsent, max_replays, never_resubscribe, overflow_fail}
use eazy_sdk.Ws.Replay.{AttemptDeliveryFailure, Exchange, delivered, failed, Link, deliver}
use eazy_sdk.Ws.Replay.AtMostOnce.{InOrder, AllButLast, deliver_at_most}
use eazy_sdk.Ws.Decisions.{
  reply, ProtocolMessage, pending_error, pending_reply, Registered, route_reader_message,
}
use eazy_sdk.Ws.Decisions.Routing.{Presupposes, route-Presupposes, open_exchange_first}
use eazy_sdk.Ws.Subscription.Publish.{publish, publish_at, enqueue, event_of, anext, anext_from}
use eazy_sdk.Ws.Subscription.{
  full, extract_position, no_dict, Subscription, active, cancelled, mark_restoring, terminal, new,
}
use eazy_sdk.Ws.Subscription.Publish.{accepts}
use eazy_sdk.Ws.Subscription.Invariant.{IsSound}
use eazy_sdk.Ws.Subscription.Calls.{Op, published, received, step}
use eazy_sdk.Ws.Subscription.Reach.{
  Reaches, start, then_call, Reaches-IsSound, mark_restoring_revives,
}
use eazy_sdk.Ws.Subscription.Pending.{Sublist, pending}
use eazy_sdk.Ws.Subscription.History.{after, all_yielded, all_offered, all_accepted}
use eazy_sdk.Ws.Subscription.Delivery.{yields_in_order}
use eazy_sdk.Ws.Subscription.Lossless.{open_loses_nothing}

abbrev unsent : AttemptDeliveryFailure
unsent = record { cause = 1; timed_out = false; may_have_been_sent = false }

-- The number of failures that are still to come.
abbrev exchange_of : ℕ → Exchange ℕ × ℕ
exchange_of zero = (delivered 7, zero)
exchange_of (suc n) = (failed unsent, n)

abbrev link : Link ℕ ℕ
link = record { exchange = exchange_of; prepare_replay = λ w. (none, w) }

enough_fuel : max_replays (replay_if_unsent 3) < 5
unfolding max_replays
enough_fuel = omega arith

deliver_at_most_example :
    let r = deliver link (replay_if_unsent 3) 5 0 2 in
    (r.outcome ≢ none)
    × (length r.exchanges ≤ suc (max_replays (replay_if_unsent 3)))
    × AllButLast (InOrder (replay_if_unsent 3)) r.exchanges
deliver_at_most_example = deliver_at_most link (replay_if_unsent 3) 5 2 enough_fuel

-- A reply to an exchange that is open.
abbrev answer : ProtocolMessage
answer = record {
  kind = reply;
  correlation = some "1";
  channel = none;
  control = none;
  terminal_error = none;
}

abbrev registries : Registered
registries = record {
  pending_present = true;
  pending_open = true;
  correlation_subscription = false;
  channel_subscription = false;
  complete_subscription = false;
}

route-Presupposes_example : Presupposes answer registries (route_reader_message answer registries).0
route-Presupposes_example = route-Presupposes answer registries

open_exchange_first_example :
    (((route_reader_message answer registries).0 ≡ pending_error) ↔ (
      (registries.pending_open ≡ true)
      × (is_some answer.terminal_error ≡ true)
      × (is_some answer.correlation ≡ true)))
    × (((route_reader_message answer registries).0 ≡ pending_reply) ↔ (
        (registries.pending_open ≡ true)
        × (is_some answer.terminal_error ≡ false)
        × (answer.kind ≡ reply)
        × (is_some answer.correlation ≡ true)))
    × (((route_reader_message answer registries).0 ≡ pending_error)
          ⊎ ((route_reader_message answer registries).0 ≡ pending_reply)
        → (route_reader_message answer registries).1 ≡ true)
open_exchange_first_example = open_exchange_first answer registries (λ h. refl)

-- A subscription with room for two events.
abbrev fresh : Subscription
fresh = record {
  resubscribe = never_resubscribe;
  capacity = 2;
  overflow = overflow_fail;
  queue = [];
  state = active;
  generation = 1;
  recovered_generation = none;
  last_position = none;
  gap_pending = false;
  closed = false;
}

fresh_is_new : new never_resubscribe 2 overflow_fail 1 ≡ some fresh
unfolding new
fresh_is_new = refl

published_once : Reaches fresh (step (published (no_dict 5) 1) fresh)
published_once = then_call (published (no_dict 5) 1) start tt

Reaches-IsSound_example : IsSound (step (published (no_dict 5) 1) fresh)
Reaches-IsSound_example =
    Reaches-IsSound never_resubscribe 2 overflow_fail 1 fresh (step (published (no_dict 5) 1) fresh)
      fresh_is_new published_once

-- Two events, of which the consumer takes one.
abbrev calls : List Op
calls = published (no_dict 5) 1 ∷ published (no_dict 6) 1 ∷ received ∷ []

yields_in_order_example :
    Sublist
      (all_yielded calls fresh ++ pending (after calls fresh).queue)
      (pending fresh.queue ++ all_offered calls)
yields_in_order_example = yields_in_order calls fresh

fresh-IsSound : IsSound fresh
fresh-IsSound = Reaches-IsSound never_resubscribe 2 overflow_fail 1 fresh fresh fresh_is_new start

calls_leave_open : (after calls fresh).closed ≡ false
unfolding after step publish publish_at enqueue event_of full extract_position anext anext_from
calls_leave_open = refl

open_loses_nothing_example :
    all_yielded calls fresh ++ pending (after calls fresh).queue
    ≡ pending fresh.queue ++ all_accepted calls fresh
open_loses_nothing_example = open_loses_nothing calls fresh fresh-IsSound refl calls_leave_open

-- A subscription that its caller closed.
abbrev done : Subscription
done = record fresh { state = cancelled; closed = true; queue = terminal none ∷ [] }

done-IsSound : IsSound done
done-IsSound = ground arith

mark_restoring_revives_example :
    (accepts (mark_restoring done 2 false).state ≡ true)
    × ((mark_restoring done 2 false).closed ≡ true)
    × ¬ IsSound (mark_restoring done 2 false)
mark_restoring_revives_example = mark_restoring_revives done 2 false done-IsSound refl

-- A subscription that recovers by the field `n`, after the value 4.
abbrev numbered : Subscription
numbered = record fresh {
  resubscribe = recover_by_sequence "n";
  last_position = some (int (pos 4));
}

abbrev fifth : Payload
fifth = dict (("n", int (pos 5)) ∷ [])

fifth_is_taken : (publish numbered fifth 1).1 ≡ true
unfolding publish publish_at extract_position skipped enqueue event_of full ◌+ℤ◌
fifth_is_taken = refl

publish_without_gap_example :
    (n : ℤ) × (read_position "n" fifth sequence_position ≡ position (int n))
    × ((publish numbered fifth 1).0.last_position ≡ some (int n))
    × (n ≤ℤ pos 4 +ℤ pos 1)
publish_without_gap_example =
    publish_without_gap "n" numbered fifth 1 (pos 4) refl refl fifth_is_taken
