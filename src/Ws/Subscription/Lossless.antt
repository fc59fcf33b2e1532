-- ===== src/Ws/Subscription/Lossless.antt =====
-- A subscription that fails on overflow loses nothing while it is open.
use eazy_sdk.Prelude.{
  ℕ, ◌≡◌, refl, sym, ◌∙◌, ap, subst, Bool, true, false, Bool-cases, Option-cases, inl, inr, Option,
  none, some, List, [], ◌∷◌, ◌++◌, if◌then◌else◌, arith,
}
use mathlib.Core.List.{append_assoc, append-nil}
use eazy_sdk.Ws.Policies.{overflow_fail}
use eazy_sdk.Ws.Subscription.{
  failed, completed, cancelled, Payload, SubscriptionError, Event, QueueItem, Subscription,
  put_terminal, is_final, fail, complete, aclose, mark_disconnected, mark_restoring, mark_active,
  extract_position, Position, no_position, position, bad, skipped, FieldValue, recovery_gap,
  overflow_error,
}
use eazy_sdk.Ws.Subscription.Publish.{
  overflowing, enqueue, event_of, publish_at, publish, accepts, anext, anext_from,
}
use eazy_sdk.Ws.Subscription.Calls.{
  Op, published, received, completed_by_server, closed_by_caller, lost, activated, failed_with,
  restored, step,
}
use eazy_sdk.Ws.Subscription.Pending.{Item, pending, pending-event}
use eazy_sdk.Ws.Subscription.History.{
  yielded, accepted, after, all_yielded, all_accepted, anext-pending,
}
use eazy_sdk.Ws.Subscription.Invariant.{IsSound}
use eazy_sdk.Ws.Subscription.Reach.{IsDue, step-IsSound}

put_terminal-closed :
    (s : Subscription) (e : Option SubscriptionError) → (put_terminal s e).closed ≡ s.closed
unfolding put_terminal
put_terminal-closed s e = refl

fail-closed :
    (s : Subscription) (e : SubscriptionError)
    → is_final s.state ≡ s.closed
    → (fail s e).closed ≡ true
unfolding fail
fail-closed s e h = elim (Bool-cases (is_final s.state)) [
  | inl p ↦ ground arith
  | inr p ↦
      ground (arith, put_terminal-closed (record s { state = failed; closed = true }) (some e))
]

-- A call that leaves the subscription open keeps its overflow policy, and its queue gains the value
-- exactly where the call reports so.
Kept : Subscription → Item → Subscription × Bool → Type 0
Kept s item t =
    t.0.closed ≡ false
    → (t.0.overflow ≡ s.overflow)
      × (pending t.0.queue ≡ pending s.queue ++ (if t.1 then item ∷ [] else []))

fail-Kept :
    (s : Subscription) (e : SubscriptionError) (item : Item)
    → is_final s.state ≡ s.closed
    → Kept s item (fail s e, false)
unfolding Kept
fail-Kept s e item h o = ground (arith, fail-closed s e h)

enqueue-Kept :
    (s : Subscription) (e : Event)
    → is_final s.state ≡ s.closed
    → s.overflow ≡ overflow_fail
    → Kept s (e.value, e.generation) (enqueue s e)
unfolding Kept enqueue overflowing
enqueue-Kept s e h p o =
    ground (arith, fail-closed s (overflow_error s.capacity) h, pending-event s.queue e)

moved-Kept :
    (s : Subscription) (v : FieldValue) (item : Item) (t : Subscription × Bool)
    → Kept (record s { last_position = some v }) item t
    → Kept s item t
unfolding Kept
moved-Kept s v item t k = k

publish_at-Kept :
    (p : Position) (s : Subscription) (value : Payload) (generation : ℕ)
    → is_final s.state ≡ s.closed
    → s.overflow ≡ overflow_fail
    → Kept s (value, generation) (publish_at p s value generation)
unfolding publish_at event_of
publish_at-Kept (bad e) s value generation h p = fail-Kept s e (value, generation) h
publish_at-Kept no_position s value generation h p =
    enqueue-Kept s (event_of s value generation) h p
publish_at-Kept (position v) s value generation h p =
    let s' = record s { last_position = some v } in
    elim (Option-cases (skipped s.resubscribe s.last_position v)) [
      | inl q ↦
          subst (Kept s (value, generation)) (ground arith)
            (moved-Kept s v _ _ (enqueue-Kept s' (event_of s' value generation) h p))
      | inr q ↦
          subst (Kept s (value, generation)) (ground arith)
            (fail-Kept s (recovery_gap q.0.0 q.0.1 generation) (value, generation) h)
    ]

same-Kept : (s : Subscription) (item : Item) → Kept s item (s, false)
unfolding Kept
same-Kept s item o = (refl, sym (append-nil (pending s.queue)))

publish-Kept :
    (s : Subscription) (value : Payload) (generation : ℕ)
    → is_final s.state ≡ s.closed
    → s.overflow ≡ overflow_fail
    → Kept s (value, generation) (publish s value generation)
unfolding publish
publish-Kept s value generation h p = elim (Bool-cases (accepts s.state)) [
  | inl q ↦
      subst (Kept s (value, generation)) (ground arith)
        (publish_at-Kept (extract_position s.resubscribe value) s value generation h p)
  | inr q ↦ subst (Kept s (value, generation)) (ground arith) (same-Kept s (value, generation))
]

fail_stays : (s : Subscription) (e : SubscriptionError) → s.closed ≡ true → (fail s e).closed ≡ true
unfolding fail
fail_stays s e c = elim (Bool-cases (is_final s.state)) [
  | inl p ↦ ground arith
  | inr p ↦
      ground (arith, put_terminal-closed (record s { state = failed; closed = true }) (some e))
]

enqueue_stays : (s : Subscription) (e : Event) → s.closed ≡ true → (enqueue s e).0.closed ≡ true
unfolding enqueue overflowing
enqueue_stays s e c = ground (arith, fail_stays s (overflow_error s.capacity) c)

anext_from_stays :
    (q : List QueueItem) (s : Subscription) → s.closed ≡ true → (anext_from q s).1.closed ≡ true
unfolding anext_from
anext_from_stays [] s c = c
anext_from_stays (x ∷ q) s c = c

publish_at_stays :
    (p : Position) (s : Subscription) (value : Payload) (generation : ℕ)
    → s.closed ≡ true
    → (publish_at p s value generation).0.closed ≡ true
unfolding publish_at
publish_at_stays (bad e) s value generation c = fail_stays s e c
publish_at_stays no_position s value generation c = enqueue_stays s (event_of s value generation) c
publish_at_stays (position v) s value generation c =
    let s' = record s { last_position = some v } in
    elim (Option-cases (skipped s.resubscribe s.last_position v)) [
      | inl q ↦ ground (arith, enqueue_stays s' (event_of s' value generation) c)
      | inr q ↦ ground (arith, fail_stays s (recovery_gap q.0.0 q.0.1 generation) c)
    ]

publish_stays :
    (s : Subscription) (value : Payload) (generation : ℕ)
    → s.closed ≡ true
    → (publish s value generation).0.closed ≡ true
unfolding publish
publish_stays s value generation c = elim (Bool-cases (accepts s.state)) [
  | inl q ↦
      ground (arith, publish_at_stays (extract_position s.resubscribe value) s value generation c)
  | inr q ↦ ground arith
]

step_stays : (op : Op) (s : Subscription) → s.closed ≡ true → (step op s).closed ≡ true
unfolding step complete aclose mark_disconnected mark_active mark_restoring anext
step_stays (published value generation) s c = publish_stays s value generation c
step_stays received s c = anext_from_stays s.queue s c
step_stays completed_by_server s c = ground arith
step_stays closed_by_caller s c = ground arith
step_stays lost s c = ground arith
step_stays activated s c = ground arith
step_stays (failed_with e) s c = fail_stays s e c
step_stays (restored generation recovered) s c = ground arith

step-closed : (op : Op) (s : Subscription) → (step op s).closed ≡ false → s.closed ≡ false
step-closed op s o = elim (Bool-cases s.closed) [
  | inl c ↦ ground (arith, step_stays op s c)
  | inr c ↦ c
]

after-closed : (ops : List Op) (s : Subscription) → (after ops s).closed ≡ false → s.closed ≡ false
unfolding after
after-closed [] s o = o
after-closed (op ∷ ops) s o = step-closed op s (after-closed ops (step op s) o)

open-IsDue : (op : Op) (s : Subscription) → s.closed ≡ false → IsDue op s
open-IsDue (published value generation) s o = tt
open-IsDue received s o = tt
open-IsDue completed_by_server s o = tt
open-IsDue closed_by_caller s o = tt
open-IsDue lost s o = tt
open-IsDue activated s o = tt
open-IsDue (failed_with e) s o = tt
open-IsDue (restored generation recovered) s o = o

anext_from-overflow :
    (q : List QueueItem) (s : Subscription) → (anext_from q s).1.overflow ≡ s.overflow
unfolding anext_from
anext_from-overflow [] s = refl
anext_from-overflow (x ∷ q) s = refl

anext-overflow : (s : Subscription) → (anext s).1.overflow ≡ s.overflow
unfolding anext
anext-overflow s = anext_from-overflow s.queue s

-- What one call does while the subscription stays open.
step-Kept :
    (op : Op) (s : Subscription)
    → is_final s.state ≡ s.closed
    → s.overflow ≡ overflow_fail
    → (step op s).closed ≡ false
    → ((step op s).overflow ≡ overflow_fail)
      × (yielded op s ++ pending (step op s).queue ≡ pending s.queue ++ accepted op s)
unfolding step complete aclose mark_disconnected mark_active mark_restoring Kept
step-Kept (published value generation) s h p o =
    let k = publish-Kept s value generation h p o in (k.0 ∙ p, k.1)
step-Kept received s h p o =
    (anext-overflow s ∙ p, sym (anext-pending s) ∙ sym (append-nil (pending s.queue)))
step-Kept completed_by_server s h p o = ground (
  arith,
  put_terminal-closed (record s { state = completed; closed = true }) none,
  append-nil (pending s.queue),
)
step-Kept closed_by_caller s h p o = ground (
  arith,
  put_terminal-closed (record s { state = cancelled; closed = true }) none,
  append-nil (pending s.queue),
)
step-Kept lost s h p o = ground (arith, append-nil (pending s.queue))
step-Kept activated s h p o = ground (arith, append-nil (pending s.queue))
step-Kept (failed_with e) s h p o = absurd (ground (arith, fail-closed s e h))
step-Kept (restored generation recovered) s h p o = ground (arith, append-nil (pending s.queue))

-- A sound subscription that fails on overflow and is open after the calls has lost nothing: what
-- the iterator yielded, followed by what waits, is what waited at the start followed by every
-- value that `publish` reported as taken.
pub open_loses_nothing :
    (ops : List Op) (s : Subscription)
    → IsSound s
    → s.overflow ≡ overflow_fail
    → (after ops s).closed ≡ false
    → all_yielded ops s ++ pending (after ops s).queue ≡ pending s.queue ++ all_accepted ops s
unfolding all_yielded after all_accepted
open_loses_nothing [] s h p o = sym (append-nil (pending s.queue))
open_loses_nothing (op ∷ ops) s h p o =
    let o' : (step op s).closed ≡ false = after-closed ops (step op s) o in
    let k = step-Kept op s h.final p o' in
    let sound = step-IsSound op s (open-IsDue op s (step-closed op s o')) h in
    let ih = open_loses_nothing ops (step op s) sound k.0 o in
    append_assoc (yielded op s) (all_yielded ops (step op s)) _
    ∙ ap (yielded op s ++◌) ih
    ∙ sym (append_assoc (yielded op s) (pending (step op s).queue) (all_accepted ops (step op s)))
    ∙ ap (◌++ all_accepted ops (step op s)) k.1
    ∙ append_assoc (pending s.queue) (accepted op s) (all_accepted ops (step op s))
