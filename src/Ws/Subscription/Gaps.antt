-- ===== src/Ws/Subscription/Gaps.antt =====
-- A subscription that recovers by a sequence number reports every gap.
use eazy_sdk.Prelude.{
  ℕ, ◌≡◌, refl, true, Bool-cases, Option-cases, ◌⊎◌, inl, inr, Option, some, String, ℤ, pos, ◌+ℤ◌,
  ◌≤ℤ◌, arith,
}
use eazy_sdk.Ws.Policies.{recover_by_sequence}
use eazy_sdk.Ws.Subscription.{
  int, Payload, dict, no_dict, Subscription, SubscriptionError, overflow_error, type_error,
  value_error, null, other, put_terminal, is_final, failed, position, bad, extract_position,
  read_position, sequence_position, field_of, skipped, fail, Event,
}
use eazy_sdk.Ws.Subscription.Publish.{publish, publish_at, enqueue, event_of, overflowing}

put_terminal-last_position :
    (s : Subscription) (e : Option SubscriptionError)
    → (put_terminal s e).last_position ≡ s.last_position
unfolding put_terminal
put_terminal-last_position s e = refl

fail-last_position :
    (s : Subscription) (e : SubscriptionError) → (fail s e).last_position ≡ s.last_position
unfolding fail
fail-last_position s e = elim (Bool-cases (is_final s.state)) [
  | inl p ↦ ground arith
  | inr p ↦
      ground
        (arith, put_terminal-last_position (record s { state = failed; closed = true }) (some e))
]

enqueue-last_position :
    (s : Subscription) (e : Event) → (enqueue s e).0.last_position ≡ s.last_position
unfolding enqueue overflowing
enqueue-last_position s e = ground (arith, fail-last_position s (overflow_error s.capacity))

-- A sequence field holds an integer, or reading it is an error.
sequence-cases :
    (name : String) (value : Payload)
    → ((e : SubscriptionError) × (read_position name value sequence_position ≡ bad e))
      ⊎ ((n : ℤ) × (read_position name value sequence_position ≡ position (int n)))
unfolding read_position sequence_position
sequence-cases name (no_dict k) = inl (type_error, refl)
sequence-cases name (dict fields) = elim (Option-cases (field_of name fields)) [
  | inl n ↦ inl (value_error, ground arith)
  | inr (null, e) ↦ inl (type_error, ground arith)
  | inr (int n, e) ↦ inr (n, ground arith)
  | inr (other k, e) ↦ inl (type_error, ground arith)
]

-- A subscription that recovers by a sequence number and has seen one takes no value that skips a
-- number: where `publish` reports success, the value carries a number that is at most one more than
-- the last one, and it is now the last position.
pub publish_without_gap :
    (name : String) (s : Subscription) (value : Payload) (generation : ℕ) (previous : ℤ)
    → s.resubscribe ≡ recover_by_sequence name
    → s.last_position ≡ some (int previous)
    → (publish s value generation).1 ≡ true
    → (n : ℤ) × (read_position name value sequence_position ≡ position (int n))
      × ((publish s value generation).0.last_position ≡ some (int n))
      × (n ≤ℤ previous +ℤ pos 1)
unfolding publish publish_at extract_position skipped
publish_without_gap name s value generation previous r l h = elim (sequence-cases name value) [
  | inl (e, b) ↦ ground arith
  | inr (n, b) ↦
      let s' = record s { last_position = some (int n) } in
      (n, b, ground (arith, enqueue-last_position s' (event_of s' value generation)), ground arith)
]
