-- ===== src/Ws/Replay/AtMostOnce.antt =====
-- How often an exchange is made, and when it is made again.
use eazy_sdk.Prelude.{
  ℕ, zero, suc, ◌+◌, ◌-◌, ◌≤◌, ◌<◌, ◌≡◌, ◌≢◌, Bool, true, false, Bool-cases, inl, inr, List, [],
  ◌∷◌, Option, none, some, length, arith,
}
use eazy_sdk.Ws.Policies.{
  WsReplayPolicy, never_replay, replay_if_unsent, replay_with_deduplication, max_replays,
  replay_allowed,
}
use eazy_sdk.Ws.Replay.{
  AttemptDeliveryFailure, Exchange, delivered, failed, broke, Run, Link, raise_delivery, Outcome,
  raised, replay, handle, deliver,
}

replay_allowed-lt :
    (policy : WsReplayPolicy) (sent : Bool) (replays : ℕ)
    → replay_allowed policy sent replays ≡ true
    → replays < max_replays policy
unfolding replay_allowed
replay_allowed-lt policy sent replays h = ground arith

-- A replay is in order: the policy has deduplication, or the frame was not sent.
abbrev pub InOrder : {A : Type 0} → WsReplayPolicy → Exchange A → Type 0
InOrder (replay_if_unsent n) (failed f) = f.may_have_been_sent ≡ false
InOrder (replay_with_deduplication key n) (failed f) = Unit
InOrder policy exchange = ⊥

-- Every exchange but the last has the property.
abbrev pub AllButLast : {A : Type 0} → (A → Type 0) → List A → Type 0
AllButLast P [] = Unit
AllButLast P (x ∷ []) = Unit
AllButLast P (x ∷ y ∷ l) = P x × AllButLast P (y ∷ l)

AllButLast-cons :
    {A : Type 0} (P : A → Type 0) (x : A) (l : List A) → P x → AllButLast P l → AllButLast P (x ∷ l)
AllButLast-cons P x [] h a = tt
AllButLast-cons P x (y ∷ l) h a = (h, a)

replay_allowed-InOrder :
    (A : Type 0) (policy : WsReplayPolicy) (f : AttemptDeliveryFailure) (replays : ℕ)
    → replay_allowed policy f.may_have_been_sent replays ≡ true
    → InOrder {A = A} policy (failed f)
unfolding replay_allowed
replay_allowed-InOrder A (never_replay n) f replays h = ground arith
replay_allowed-InOrder A (replay_if_unsent n) f replays h = ground arith
replay_allowed-InOrder A (replay_with_deduplication key n) f replays h = tt

module _ {W A : Type 0} (link : Link W A) (policy : WsReplayPolicy) where
  handle_again :
      (replays : ℕ) (f : AttemptDeliveryFailure) (w : W) (next : W → Run W A)
      → replay_allowed policy f.may_have_been_sent replays ≡ true
      → handle link policy replays (failed f, w) next
        ≡ replay link policy f (link.prepare_replay w) next
  unfolding handle
  handle_again replays f w next h = rw h

  handle_over :
      (replays : ℕ) (f : AttemptDeliveryFailure) (w : W) (next : W → Run W A)
      → replay_allowed policy f.may_have_been_sent replays ≡ false
      → handle link policy replays (failed f, w) next ≡ record {
        outcome = some (raised (raise_delivery f));
        world = w;
        exchanges = failed f ∷ [];
      }
  unfolding handle
  handle_over replays f w next h = rw h

  -- A fact about runs that the loop keeps, shown once for all of them. `P k` speaks of the run that
  -- begins after `k` replays.
  module _ (P : ℕ → Run W A → Type 0) where
    record Kept : Type 0 where
      ends :
          (k : ℕ) (x : Exchange A) (o : Outcome A) (w : W)
          → P k (record { outcome = some o; world = w; exchanges = x ∷ [] })
      goes_on :
          (k : ℕ) (f : AttemptDeliveryFailure) (r : Run W A)
          → replay_allowed policy f.may_have_been_sent k ≡ true
          → P (k + 1) r
          → P k (record r { exchanges = failed f ∷ r.exchanges })

    replay-Kept :
        Kept
        → (k : ℕ) (f : AttemptDeliveryFailure) (p : Option ℕ × W) (next : W → Run W A)
        → replay_allowed policy f.may_have_been_sent k ≡ true
        → ((w : W) → P (k + 1) (next w))
        → P k (replay link policy f p next)
    unfolding replay
    replay-Kept h k f (some e, w) next allowed ih = h.ends k _ _ w
    replay-Kept h k f (none, w) next allowed ih = h.goes_on k f (next w) allowed (ih w)

    handle-Kept :
        Kept
        → (k : ℕ) (p : Exchange A × W) (next : W → Run W A)
        → (k < max_replays policy → (w : W) → P (k + 1) (next w))
        → P k (handle link policy k p next)
    handle-Kept h k (delivered a, w) next ih = unfold handle in h.ends k _ _ w
    handle-Kept h k (broke e, w) next ih = unfold handle in h.ends k _ _ w
    handle-Kept h k (failed f, w) next ih =
        elim (Bool-cases (replay_allowed policy f.may_have_been_sent k)) [
          | inl go ↦ rw (handle_again k f w next go) (
              replay-Kept h k f (link.prepare_replay w) next go
                (ih (replay_allowed-lt policy f.may_have_been_sent k go)))
          | inr over ↦ rw (handle_over k f w next over) (h.ends k _ _ w)
        ]

    deliver-Kept :
        Kept
        → (fuel k : ℕ) (w : W) → max_replays policy - k < fuel
        → P k (deliver link policy fuel k w)
    unfolding deliver
    deliver-Kept h zero k w enough = elim enough [ ]
    deliver-Kept h (suc fuel) k w enough =
        handle-Kept h k (link.exchange w) (deliver link policy fuel (k + 1))
          λ more w'. deliver-Kept h fuel (k + 1) w' (omega arith)

  -- `send` and `call` come to an outcome, after one exchange and at most one more for each replay
  -- of the policy, and every exchange that was made again had failed and was in order to repeat:
  -- with `ReplayIfUnsent` its frame had not been sent, and with `NeverReplay` there is none.
  pub deliver_at_most :
      (fuel : ℕ) (w : W)
      → max_replays policy < fuel
      → let r = deliver link policy fuel 0 w in
        (r.outcome ≢ none)
        × (length r.exchanges ≤ suc (max_replays policy))
        × AllButLast (InOrder policy) r.exchanges
  deliver_at_most fuel w enough =
      let h =
        deliver-Kept
          (λ k r.
            (r.outcome ≢ none)
            × (length r.exchanges ≤ suc (max_replays policy - k))
            × AllButLast (InOrder policy) r.exchanges)
          (record {
            ends = λ k x o w'. ((λ e. cc), omega arith, tt);
            goes_on = λ k f r go ih. (
              ih.0,
              omega (arith, replay_allowed-lt policy f.may_have_been_sent k go, ih.1),
              AllButLast-cons (InOrder policy) (failed f) r.exchanges
                  (replay_allowed-InOrder A policy f k go) ih.2,
            );
          })
          fuel 0 w (omega arith) in
      (h.0, omega (arith, h.1), h.2)
