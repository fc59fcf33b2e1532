-- ===== src/Ws/Client/Broken.antt =====
-- The end of a connection settles its writes, and keeps them sound.
use eazy_sdk.Prelude.{
  ℕ, ◌≡◌, refl, sym, ◌∙◌, subst, Bool, true, false, not, ◌&&◌, ◌||◌, Option, none, some, List, [],
  ◌∷◌, ◌==◌, get_elem?, inl, inr, arith, Bool-cases, Option-cases,
}
use eazy_sdk.Ws.Decisions.{SessionState, disconnect_action, failure_state}
use eazy_sdk.Ws.Subscription.{SubscriptionError, fail, given}
use eazy_sdk.Ws.Client.{Client, WriteItem, Completion, write_failed, alter, settle_active}
use eazy_sdk.Ws.Client.Table.{remove_subscription, subscription_records}
use eazy_sdk.Ws.Client.Failure.{
  fail_outstanding, fail_subscription, fail_subscriptions, disconnect_one, disconnect_each,
  no_delays, disconnect_subscriptions, fail_connection, is_ending, session_of, delivery_failure,
  break_write, change_subscription, is_retain,
}
use eazy_sdk.Ws.Client.Writes.{Delivering, AllSettled, failed-AllSettled, failed-Honest}
use eazy_sdk.Ws.Client.Delivered.{
  Sound, SoundWrites, writes, Writes, settled-Delivering, settle_active-Delivering,
}

pub remove_subscription-writes : (i : ℕ) (c : Client) → writes (remove_subscription i c) ≡ writes c
unfolding remove_subscription
remove_subscription-writes i c = elim (Option-cases (get_elem? c.records i)) [
  | inl n ↦ ground (arith, n)
  | inr r ↦ ground (arith, r.1)
]

pub fail_subscription-writes :
    (e : SubscriptionError) (i : ℕ) (c : Client) → writes (fail_subscription e i c) ≡ writes c
unfolding fail_subscription
fail_subscription-writes e i c =
    remove_subscription-writes i
      record c { records = alter (change_subscription λ s. fail s e) i c.records }

pub fail_subscriptions-writes :
    (e : SubscriptionError) (refs : List ℕ) (c : Client)
    → writes (fail_subscriptions e refs c) ≡ writes c
unfolding fail_subscriptions
fail_subscriptions-writes e [] c = refl
fail_subscriptions-writes e (i ∷ refs) c =
    fail_subscriptions-writes e refs (fail_subscription e i c) ∙ fail_subscription-writes e i c

disconnect_one-writes :
    (cause : ℕ) (fatal reconnect : Bool) (i : ℕ) (c : Client)
    → writes (disconnect_one cause fatal reconnect i c).0 ≡ writes c
unfolding disconnect_one
disconnect_one-writes cause fatal reconnect i c = elim (Option-cases (get_elem? c.records i)) [
  | inl n ↦ ground (arith, n)
  | inr r ↦
      elim (Bool-cases
        (is_retain (disconnect_action r.0.subscription.resubscribe fatal reconnect))) [
          | inl k ↦ ground (arith, r.1, k)
          | inr k ↦ ground (arith, r.1, k, fail_subscription-writes (given cause) i c)
        ]
]

disconnect_each-writes :
    (cause : ℕ) (fatal reconnect : Bool) (refs : List ℕ) (c : Client)
    → writes (disconnect_each cause fatal reconnect refs c).0 ≡ writes c
unfolding disconnect_each
disconnect_each-writes cause fatal reconnect [] c = refl
disconnect_each-writes cause fatal reconnect (i ∷ refs) c =
    disconnect_each-writes cause fatal reconnect refs (disconnect_one cause fatal reconnect i c).0
    ∙ disconnect_one-writes cause fatal reconnect i c

disconnect_subscriptions-writes :
    (cause : ℕ) (fatal reconnect : Bool) (c : Client)
    → writes (disconnect_subscriptions cause fatal reconnect c).0 ≡ writes c
unfolding disconnect_subscriptions
disconnect_subscriptions-writes cause fatal reconnect c =
    let each = disconnect_each cause fatal reconnect (subscription_records c) c in
    let first = disconnect_each-writes cause fatal reconnect (subscription_records c) c in
    let second =
      fail_subscriptions-writes (given cause)
        (subscription_records (disconnect_each cause fatal reconnect (subscription_records c) c).0)
        (disconnect_each cause fatal reconnect (subscription_records c) c).0 in
    elim (Bool-cases (each.1 && no_delays c.delays)) [
      | inl k ↦ ground (arith, k, second, first)
      | inr k ↦ ground (arith, k, first)
    ]

-- What `_fail_outstanding` leaves.
module _ (cause : ℕ) (c : Client) (h : Sound c) where
  pub fail_outstanding-AllSettled : AllSettled (fail_outstanding cause c).items
  unfolding fail_outstanding
  fail_outstanding-AllSettled = failed-AllSettled c.session c.items c.queue c.active_write h cause

  pub fail_outstanding-Delivering :
      (session : SessionState) (active : Option ℕ)
      → Delivering session (fail_outstanding cause c).items (fail_outstanding cause c).queue active
  unfolding fail_outstanding
  fail_outstanding-Delivering session active =
      settled-Delivering session (fail_outstanding cause c).items (fail_outstanding cause c).queue
        active (failed-AllSettled c.session c.items c.queue c.active_write h cause)
        (failed-Honest c.session c.items c.queue c.active_write h cause)
        (elim (Option-cases c.queue) [ inl n ↦ ground (arith, n) | inr q ↦ ground (arith, q.1) ])

module _ (cause generation : ℕ) (fatal reconnect : Bool) (c : Client) where
  abbrev pub left_alone : Bool
  left_alone = not (generation == c.generation) || is_ending c.session

  abbrev target : Client
  target = record c { session = session_of (failure_state fatal reconnect) }

  pub fail_connection-writes :
      left_alone ≡ false
      → writes (fail_connection cause generation fatal reconnect c)
        ≡ writes (fail_outstanding cause target)
  unfolding fail_connection
  fail_connection-writes k =
      let out = disconnect_subscriptions cause fatal reconnect (fail_outstanding cause target) in
      let same =
        disconnect_subscriptions-writes cause fatal reconnect (fail_outstanding cause target) in
      elim (Bool-cases out.1) [
        | inl s ↦ ground (arith, k, s, same)
        | inr s ↦ ground (arith, k, s, same)
      ]

  pub fail_connection-Sound : Sound c → Sound (fail_connection cause generation fatal reconnect c)
  unfolding fail_connection fail_outstanding
  fail_connection-Sound h = elim (Bool-cases left_alone) [
    | inl k ↦
        let same : c ≡ fail_connection cause generation fatal reconnect c = ground (arith, k) in
        subst Sound same h
    | inr k ↦ subst SoundWrites (sym (fail_connection-writes k)) (
        fail_outstanding-Delivering cause c h (session_of (failure_state fatal reconnect))
          c.active_write)
  ]

  -- A failure that is not left alone settles all writes.
  pub fail_connection-AllSettled :
      Sound c
      → left_alone ≡ false
      → AllSettled (fail_connection cause generation fatal reconnect c).items
  unfolding fail_outstanding
  fail_connection-AllSettled h k =
      subst (λ (w : Writes). AllSettled w.1) (sym (fail_connection-writes k))
        (fail_outstanding-AllSettled cause c h)

-- The active write, where it is settled, is sound among the others as well.
any_active :
    (session : SessionState) (items : List WriteItem) (queue : Option (List ℕ)) (active : Option ℕ)
    → Delivering session items queue none
    → Delivering session items queue active
any_active session items queue none h = h
any_active session items queue (some i) h = record {
  covered = λ j x at e. inr (h.covered j x at e);
  quiet = h.quiet;
  honest = h.honest;
  fresh = h.fresh;
}

-- A write that failed in the socket.
module _ (cause generation : ℕ) (c : Client) (h : Sound c) where
  abbrev outcome : Completion
  outcome = write_failed (delivery_failure cause true)

  abbrev broken : Client
  broken = settle_active outcome c

  broken-Delivering : Delivering c.session broken.items c.queue none
  broken-Delivering =
      settle_active-Delivering outcome (λ e. ground (arith, e)) (λ f e s. ground (arith, e, s)) c h

  broken-writes : writes broken ≡ (c.session, broken.items, c.queue, c.active_write)
  unfolding settle_active
  broken-writes = elim (Option-cases c.active_write) [
    | inl n ↦ ground (arith, n)
    | inr i ↦ ground (arith, i.1)
  ]

  broken-Sound : Sound broken
  broken-Sound =
      subst SoundWrites (sym broken-writes)
        (any_active c.session broken.items c.queue c.active_write broken-Delivering)

  pub break_write-Sound : Sound (break_write cause generation c)
  unfolding break_write fail_connection fail_outstanding
  break_write-Sound = elim (Bool-cases (left_alone cause generation false true broken)) [
    | inl k ↦
        let same : (c.session, broken.items, c.queue, none)
            ≡ writes (break_write cause generation c) =
          ground (arith, k, broken-writes) in
        subst SoundWrites same broken-Delivering
    | inr k ↦
        subst (λ (w : Writes). Delivering w.0 w.1 w.2 none)
          (sym (fail_connection-writes cause generation false true broken k))
          (fail_outstanding-Delivering cause broken broken-Sound
            (session_of (failure_state false true)) none)
  ]
