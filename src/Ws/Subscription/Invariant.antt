-- ===== src/Ws/Subscription/Invariant.antt =====
-- What holds of a subscription between two calls of its methods.
use eazy_sdk.Prelude.{
  leb, Bool-cases, Option-cases, sym, ◌∙◌, inl, inr, ap, subst, ℕ, ◌≤◌, ◌<◌, ◌≡◌, refl, Bool, true,
  false, Option, none, some, List, [], ◌∷◌, ◌++◌, length, All, arith,
}
use eazy_sdk.Ws.Policies.{OverflowPolicy, overflow_fail, drop_oldest, drop_newest}
use eazy_sdk.Ws.Subscription.{
  FieldValue, recovery_gap, Payload, SubscriptionError, overflow_error, Event, QueueItem, event,
  terminal, Subscription, full, drop_first, put_terminal, is_final, fail, completed, failed,
  cancelled, SubscriptionState, complete, aclose, mark_disconnected, mark_restoring, mark_active,
  extract_position, Position, no_position, position, bad, skipped,
}
use eazy_sdk.Ws.Subscription.Publish.{
  overflowing, enqueue, event_of, publish_at, publish, accepts, anext, anext_from,
}
use eazy_sdk.Ws.Subscription.Queue.{
  IsEvent, TerminalLast, All-IsEvent-TerminalLast, All-snoc, All-drop_first, length-snoc,
  length-drop_first-pos, TerminalLast-tail, length-room, TerminalLast-room,
}

pub record IsSound (s : Subscription) : Type 0 where
  pub roomy : 0 < s.capacity
  pub bounded : length s.queue ≤ s.capacity
  pub final : is_final s.state ≡ s.closed
  pub open_queue : s.closed ≡ false → All IsEvent s.queue
  pub last : TerminalLast s.queue

-- A subscription that was open ends soundly, in a final state.
pub close-IsSound :
    (s : Subscription) (e : Option SubscriptionError) (state : SubscriptionState)
    → IsSound s
    → s.closed ≡ false
    → is_final state ≡ true
    → IsSound (put_terminal (record s { state = state; closed = true }) e)
unfolding put_terminal full
close-IsSound s e state h o f = record {
  roomy = h.roomy;
  bounded = length-room s.capacity s.queue (terminal e) h.roomy h.bounded;
  final = f;
  open_queue = ground arith;
  last = TerminalLast-room (leb s.capacity (length s.queue)) s.queue (terminal e) (h.open_queue o);
}

pub fail-IsSound : (s : Subscription) (e : SubscriptionError) → IsSound s → IsSound (fail s e)
unfolding fail
fail-IsSound s e h = elim (Bool-cases (is_final s.state)) [
  | inl p ↦ ground arith
  | inr p ↦ ground (arith, close-IsSound s (some e) failed h (sym h.final ∙ p) refl)
]

pub complete-IsSound : (s : Subscription) → IsSound s → IsSound (complete s)
unfolding complete
complete-IsSound s h = elim (Bool-cases s.closed) [
  | inl p ↦ ground arith
  | inr p ↦ ground (arith, close-IsSound s none completed h p refl)
]

pub aclose-IsSound : (s : Subscription) → IsSound s → IsSound (aclose s)
unfolding aclose
aclose-IsSound s h = elim (Bool-cases s.closed) [
  | inl p ↦ ground arith
  | inr p ↦ ground (arith, close-IsSound s none cancelled h p refl)
]

pub mark_disconnected-IsSound : (s : Subscription) → IsSound s → IsSound (mark_disconnected s)
unfolding mark_disconnected
mark_disconnected-IsSound s h = elim (Bool-cases s.closed) [
  | inl p ↦ ground arith
  | inr p ↦ ground (arith, h.open_queue p)
]

pub mark_active-IsSound : (s : Subscription) → IsSound s → IsSound (mark_active s)
unfolding mark_active
mark_active-IsSound s h = elim (Bool-cases s.closed) [
  | inl p ↦ ground arith
  | inr p ↦ ground (arith, h.open_queue p)
]

pub mark_restoring-IsSound :
    (s : Subscription) (generation : ℕ) (recovered : Bool)
    → IsSound s
    → s.closed ≡ false
    → IsSound (mark_restoring s generation recovered)
unfolding mark_restoring
mark_restoring-IsSound s generation recovered h o = ground (arith, h.open_queue o)

-- A state that takes events is not final.
pub open_of_accepts : (s : Subscription) → IsSound s → accepts s.state ≡ true → s.closed ≡ false
open_of_accepts s h a = ground (arith, h.final)

pub refill-IsSound :
    (s : Subscription) (q : List QueueItem) (gap : Bool)
    → IsSound s
    → s.closed ≡ false
    → All IsEvent q
    → length q ≤ s.capacity
    → IsSound (record s { queue = q; gap_pending = gap })
refill-IsSound s q gap h o a b = record {
  roomy = h.roomy;
  bounded = b;
  final = h.final;
  open_queue = λ _. a;
  last = All-IsEvent-TerminalLast q a;
}

pub overflowing-IsSound :
    (policy : OverflowPolicy) (s : Subscription) (e : Event)
    → IsSound s
    → s.closed ≡ false
    → s.capacity ≤ length s.queue
    → IsSound (overflowing policy s e).0
unfolding overflowing
overflowing-IsSound overflow_fail s e h o f = fail-IsSound s (overflow_error s.capacity) h
overflowing-IsSound drop_newest s e h o f =
    refill-IsSound s s.queue true h o (h.open_queue o) h.bounded
overflowing-IsSound drop_oldest s e h o f =
    let last = event (record e { gap = true }) in
    refill-IsSound s (drop_first s.queue ++ last ∷ []) false h o
      (All-snoc (drop_first s.queue) last (All-drop_first s.queue (h.open_queue o)) tt)
      (ground (
        arith,
        h.bounded,
        h.roomy,
        length-snoc (drop_first s.queue) last,
        length-drop_first-pos s.queue,
      ))

pub enqueue-IsSound :
    (s : Subscription) (e : Event) → IsSound s → s.closed ≡ false → IsSound (enqueue s e).0
unfolding enqueue full
enqueue-IsSound s e h o = elim (Bool-cases (leb s.capacity (length s.queue))) [
  | inl p ↦ ground (arith, overflowing-IsSound s.overflow s e h o (ground arith))
  | inr p ↦ ground (
    arith,
    refill-IsSound s (s.queue ++ event e ∷ []) false h o
        (All-snoc s.queue (event e) (h.open_queue o) tt)
        (ground (arith, h.bounded, length-snoc s.queue (event e))),
  )
]

pub moved-IsSound :
    (s : Subscription) (v : FieldValue) → IsSound s → IsSound (record s { last_position = some v })
moved-IsSound s v h = record {
  roomy = h.roomy;
  bounded = h.bounded;
  final = h.final;
  open_queue = h.open_queue;
  last = h.last;
}

pub publish_at-IsSound :
    (p : Position) (s : Subscription) (value : Payload) (generation : ℕ)
    → IsSound s
    → s.closed ≡ false
    → IsSound (publish_at p s value generation).0
unfolding publish_at
publish_at-IsSound (bad e) s value generation h o = fail-IsSound s e h
publish_at-IsSound no_position s value generation h o =
    enqueue-IsSound s (event_of s value generation) h o
publish_at-IsSound (position v) s value generation h o =
    let s' = record s { last_position = some v } in
    let h' : IsSound s' = moved-IsSound s v h in
    elim (Option-cases (skipped s.resubscribe s.last_position v)) [
      | inl p ↦ ground (arith, enqueue-IsSound s' (event_of s' value generation) h' o)
      | inr p ↦ ground (arith, fail-IsSound s (recovery_gap p.0.0 p.0.1 generation) h)
    ]

pub publish-IsSound :
    (s : Subscription) (value : Payload) (generation : ℕ)
    → IsSound s
    → IsSound (publish s value generation).0
unfolding publish
publish-IsSound s value generation h = elim (Bool-cases (accepts s.state)) [
  | inl p ↦ ground (
    arith,
    publish_at-IsSound (extract_position s.resubscribe value) s value generation h
        (open_of_accepts s h p),
  )
  | inr p ↦ ground arith
]

pub anext_from-IsSound :
    (q : List QueueItem) (s : Subscription) → s.queue ≡ q → IsSound s → IsSound (anext_from q s).1
unfolding anext_from
anext_from-IsSound [] s e h = h
anext_from-IsSound (x ∷ q) s e h = record {
  roomy = h.roomy;
  bounded = ground (arith, h.bounded, ap length e);
  final = h.final;
  open_queue = λ o. (subst (All IsEvent) e (h.open_queue o)).1;
  last = TerminalLast-tail x q (subst TerminalLast e h.last);
}

pub anext-IsSound : (s : Subscription) → IsSound s → IsSound (anext s).1
unfolding anext
anext-IsSound s h = anext_from-IsSound s.queue s refl h
