-- ===== src/Ws/Subscription/Delivery.antt =====
-- The iterator of a subscription yields what is published to it in order.
use eazy_sdk.Prelude.{
  ℕ, ◌≡◌, sym, subst, Bool, true, false, Bool-cases, Option-cases, inl, inr, Option, none, some,
  List, [], ◌∷◌, ◌++◌, if◌then◌else◌, arith,
}
use mathlib.Core.List.{append_assoc}
use eazy_sdk.Ws.Policies.{OverflowPolicy, overflow_fail, drop_oldest, drop_newest}
use eazy_sdk.Ws.Subscription.{
  SubscriptionState, failed, completed, cancelled, Payload, SubscriptionError, Event, QueueItem,
  event, terminal, Subscription, full, drop_first, put_terminal, is_final, fail, complete, aclose,
  mark_disconnected, mark_restoring, mark_active, extract_position, Position, no_position, position,
  bad, skipped, recovery_gap, overflow_error,
}
use eazy_sdk.Ws.Subscription.Publish.{overflowing, enqueue, event_of, publish_at, publish, accepts}
use eazy_sdk.Ws.Subscription.Calls.{
  Op, published, received, completed_by_server, closed_by_caller, lost, activated, failed_with,
  restored, step,
}
use eazy_sdk.Ws.Subscription.Pending.{
  Item, Sublist, pending, Sublist-refl, Sublist-trans, Sublist-append, Sublist-left, pending-event,
  pending-terminal, pending-drop_first, queue-pending, unmoved, Sublist-prepend, Sublist-assoc,
}
use eazy_sdk.Ws.Subscription.History.{
  yielded, offered, after, all_yielded, all_offered, anext-pending,
}

room-pending :
    (test : Bool) (q : List QueueItem) (e : Option SubscriptionError)
    → Sublist (pending ((if test then drop_first q else q) ++ terminal e ∷ [])) (pending q)
room-pending true q e =
    subst (λ z. Sublist z (pending q)) (sym (pending-terminal (drop_first q) e))
      (pending-drop_first q)
room-pending false q e =
    subst (λ z. Sublist z (pending q)) (sym (pending-terminal q e)) (Sublist-refl (pending q))

put_terminal-pending :
    (s : Subscription) (e : Option SubscriptionError)
    → Sublist (pending (put_terminal s e).queue) (pending s.queue)
unfolding put_terminal
put_terminal-pending s e = room-pending (full s) s.queue e

fail-pending :
    (s : Subscription) (e : SubscriptionError)
    → Sublist (pending (fail s e).queue) (pending s.queue)
unfolding fail
fail-pending s e = elim (Bool-cases (is_final s.state)) [
  | inl p ↦ ground (arith, Sublist-refl (pending s.queue))
  | inr p ↦
      ground (arith, put_terminal-pending (record s { state = failed; closed = true }) (some e))
]

append-pending :
    (q : List QueueItem) (e : Event) (ys : List Item)
    → Sublist (pending q) ys
    → Sublist (pending (q ++ event e ∷ [])) (ys ++ (e.value, e.generation) ∷ [])
append-pending q e ys h =
    subst (λ z. Sublist z (ys ++ (e.value, e.generation) ∷ [])) (sym (pending-event q e))
      (Sublist-append _ h)

overflowing-pending :
    (policy : OverflowPolicy) (s : Subscription) (e : Event)
    → Sublist
        (pending (overflowing policy s e).0.queue)
        (pending s.queue ++ (e.value, e.generation) ∷ [])
unfolding overflowing
overflowing-pending drop_newest s e = Sublist-left (pending s.queue) ((e.value, e.generation) ∷ [])
overflowing-pending drop_oldest s e =
    append-pending (drop_first s.queue) (record e { gap = true }) (pending s.queue)
      (pending-drop_first s.queue)
overflowing-pending overflow_fail s e =
    Sublist-trans (fail-pending s (overflow_error s.capacity))
      (Sublist-left (pending s.queue) ((e.value, e.generation) ∷ []))

enqueue-pending :
    (s : Subscription) (e : Event)
    → Sublist (pending (enqueue s e).0.queue) (pending s.queue ++ (e.value, e.generation) ∷ [])
unfolding enqueue
enqueue-pending s e = elim (Bool-cases (full s)) [
  | inl p ↦ ground (arith, overflowing-pending s.overflow s e)
  | inr p ↦
      ground (arith, append-pending s.queue e (pending s.queue) (Sublist-refl (pending s.queue)))
]

publish_at-pending :
    (p : Position) (s : Subscription) (value : Payload) (generation : ℕ)
    → Sublist
        (pending (publish_at p s value generation).0.queue)
        (pending s.queue ++ (value, generation) ∷ [])
unfolding publish_at event_of
publish_at-pending (bad e) s value generation =
    Sublist-trans (fail-pending s e) (Sublist-left (pending s.queue) ((value, generation) ∷ []))
publish_at-pending no_position s value generation = enqueue-pending s (event_of s value generation)
publish_at-pending (position v) s value generation =
    let s' = record s { last_position = some v } in
    elim (Option-cases (skipped s.resubscribe s.last_position v)) [
      | inl p ↦ ground (arith, enqueue-pending s' (event_of s' value generation))
      | inr p ↦ ground (
        arith,
        Sublist-trans (fail-pending s (recovery_gap p.0.0 p.0.1 generation))
            (Sublist-left (pending s.queue) ((value, generation) ∷ [])),
      )
    ]

publish-pending :
    (s : Subscription) (value : Payload) (generation : ℕ)
    → Sublist
        (pending (publish s value generation).0.queue)
        (pending s.queue ++ (value, generation) ∷ [])
unfolding publish
publish-pending s value generation = elim (Bool-cases (accepts s.state)) [
  | inl p ↦
      ground (arith, publish_at-pending (extract_position s.resubscribe value) s value generation)
  | inr p ↦ ground (arith, Sublist-left (pending s.queue) ((value, generation) ∷ []))
]

closing-pending :
    (s : Subscription) (state : SubscriptionState)
    → Sublist
        (pending
          (if s.closed
            then s
            else put_terminal (record s { state = state; closed = true }) none).queue)
        (pending s.queue)
closing-pending s state = elim (Bool-cases s.closed) [
  | inl p ↦ ground (arith, Sublist-refl (pending s.queue))
  | inr p ↦ ground (arith, put_terminal-pending (record s { state = state; closed = true }) none)
]

complete-pending : (s : Subscription) → Sublist (pending (complete s).queue) (pending s.queue)
unfolding complete
complete-pending s = closing-pending s completed

aclose-pending : (s : Subscription) → Sublist (pending (aclose s).queue) (pending s.queue)
unfolding aclose
aclose-pending s = closing-pending s cancelled

mark_disconnected-queue : (s : Subscription) → (mark_disconnected s).queue ≡ s.queue
unfolding mark_disconnected
mark_disconnected-queue s = ground arith

mark_active-queue : (s : Subscription) → (mark_active s).queue ≡ s.queue
unfolding mark_active
mark_active-queue s = ground arith

mark_restoring-queue :
    (s : Subscription) (generation : ℕ) (recovered : Bool)
    → (mark_restoring s generation recovered).queue ≡ s.queue
unfolding mark_restoring
mark_restoring-queue s generation recovered = ground arith

step-pending :
    (op : Op) (s : Subscription)
    → Sublist (yielded op s ++ pending (step op s).queue) (pending s.queue ++ offered op)
unfolding step
step-pending (published value generation) s = publish-pending s value generation
step-pending received s =
    subst (λ z. Sublist z (pending s.queue ++ [])) (anext-pending s)
      (Sublist-left (pending s.queue) [])
step-pending completed_by_server s = unmoved (complete-pending s)
step-pending closed_by_caller s = unmoved (aclose-pending s)
step-pending lost s = unmoved (queue-pending (mark_disconnected-queue s))
step-pending activated s = unmoved (queue-pending (mark_active-queue s))
step-pending (failed_with e) s = unmoved (fail-pending s e)
step-pending (restored generation recovered) s =
    unmoved (queue-pending (mark_restoring-queue s generation recovered))

-- Whatever calls are made, and whatever the overflow policy: what the iterator yields, followed by
-- what still waits in the queue, is the values that waited at the start followed by the published
-- ones, in their order and none twice, though some may be missing.
pub yields_in_order :
    (ops : List Op) (s : Subscription)
    → Sublist
        (all_yielded ops s ++ pending (after ops s).queue)
        (pending s.queue ++ all_offered ops)
unfolding all_yielded after all_offered
yields_in_order [] s = Sublist-left (pending s.queue) []
yields_in_order (op ∷ ops) s =
    let rest = yields_in_order ops (step op s) in
    let first = Sublist-append (all_offered ops) (step-pending op s) in
    Sublist-assoc (yielded op s) (all_yielded ops (step op s))
      (pending (after ops (step op s)).queue) (pending s.queue) (offered op) (all_offered ops)
      (Sublist-trans
        (subst
          (Sublist (
            yielded op s ++ (all_yielded ops (step op s) ++ pending (after ops (step op s)).queue)))
          (sym (append_assoc (yielded op s) (pending (step op s).queue) (all_offered ops)))
          (Sublist-prepend (yielded op s) rest))
        first)
