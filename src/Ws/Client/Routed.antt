-- ===== src/Ws/Client/Routed.antt =====
-- Each step of a client keeps its registries sound.
use eazy_sdk.Prelude.{
  ℕ, ◌≡◌, refl, subst, Bool, not, ◌&&◌, ◌||◌, String, List, [], ◌∷◌, ◌==◌, get_elem?, inl, inr,
  arith, Bool-cases, Option-cases, str_eq,
}
use eazy_sdk.Dict.Distinct.{Distinct}
use eazy_sdk.Ws.Decisions.{disconnect_action, failure_state}
use eazy_sdk.Ws.Subscription.{given, mark_disconnected}
use eazy_sdk.Ws.Client.{Client, SubscriptionRecord, alter}
use eazy_sdk.Ws.Client.Table.{subscription_records}
use eazy_sdk.Ws.Client.Failure.{
  fail_subscription, fail_outstanding, fail_connection, disconnect_one, disconnect_each,
  disconnect_subscriptions, fail_subscriptions, is_ending, session_of, no_delays,
  change_subscription, is_retain,
}
use eazy_sdk.Ws.Client.Registry.{IsRegistered, Routes}
use eazy_sdk.Ws.Client.Dropped.{
  change-IsRegistered, fail_subscription-IsRegistered, fail_subscriptions-IsRegistered,
}

-- The records and the registries of a client.
abbrev pub Registries : Type 0
Registries = List SubscriptionRecord × List (String × ℕ) × List (String × ℕ)

abbrev pub registries : Client → Registries
registries c = (c.records, c.by_channel, c.by_correlation)

pub same-IsRegistered :
    (c other : Client) → registries c ≡ registries other → IsRegistered c → IsRegistered other
same-IsRegistered c other e h = record {
  channels = subst (λ (t : Registries). Routes (λ r. r.channel) t.0 t.1) e h.channels;
  correlations = subst (λ (t : Registries). Routes (λ r. r.correlation) t.0 t.2) e h.correlations;
  channel_keys = subst (λ (t : Registries). Distinct str_eq t.1) e h.channel_keys;
  correlation_keys = subst (λ (t : Registries). Distinct str_eq t.2) e h.correlation_keys;
}

module _ (cause : ℕ) (fatal reconnect : Bool) where
  disconnect_one-IsRegistered :
      (i : ℕ) (c : Client)
      → IsRegistered c
      → IsRegistered (disconnect_one cause fatal reconnect i c).0
  unfolding disconnect_one
  disconnect_one-IsRegistered i c h = elim (Option-cases (get_elem? c.records i)) [
    | inl n ↦
        let same : c ≡ (disconnect_one cause fatal reconnect i c).0 = ground (arith, n) in
        subst IsRegistered same h
    | inr r ↦
        elim (Bool-cases
          (is_retain (disconnect_action r.0.subscription.resubscribe fatal reconnect))) [
            | inl k ↦
                let out : Client = record c {
                  records = alter (change_subscription mark_disconnected) i c.records;
                } in
                let same : out ≡ (disconnect_one cause fatal reconnect i c).0 =
                  ground (arith, r.1, k) in
                subst IsRegistered same (change-IsRegistered mark_disconnected i c h)
            | inr k ↦
                let same : fail_subscription (given cause) i c
                    ≡ (disconnect_one cause fatal reconnect i c).0 =
                  ground (arith, r.1, k) in
                subst IsRegistered same (fail_subscription-IsRegistered (given cause) i c h)
          ]
  ]

  disconnect_each-IsRegistered :
      (refs : List ℕ) (c : Client)
      → IsRegistered c
      → IsRegistered (disconnect_each cause fatal reconnect refs c).0
  unfolding disconnect_each
  disconnect_each-IsRegistered [] c h = h
  disconnect_each-IsRegistered (i ∷ refs) c h =
      disconnect_each-IsRegistered refs (disconnect_one cause fatal reconnect i c).0
        (disconnect_one-IsRegistered i c h)

  disconnect_subscriptions-IsRegistered :
      (c : Client)
      → IsRegistered c
      → IsRegistered (disconnect_subscriptions cause fatal reconnect c).0
  unfolding disconnect_subscriptions
  disconnect_subscriptions-IsRegistered c h =
      let each = disconnect_each cause fatal reconnect (subscription_records c) c in
      let sound = disconnect_each-IsRegistered (subscription_records c) c h in
      elim (Bool-cases (each.1 && no_delays c.delays)) [
        | inl k ↦
            let same : fail_subscriptions (given cause) (subscription_records each.0) each.0
                ≡ (disconnect_subscriptions cause fatal reconnect c).0 =
              ground (arith, k) in
            subst IsRegistered same (
              fail_subscriptions-IsRegistered (given cause)
                (subscription_records
                  (disconnect_each cause fatal reconnect (subscription_records c) c).0)
                (disconnect_each cause fatal reconnect (subscription_records c) c).0 sound)
        | inr k ↦
            let same : each.0 ≡ (disconnect_subscriptions cause fatal reconnect c).0 =
              ground (arith, k) in
            subst IsRegistered same sound
      ]

  pub fail_connection-IsRegistered :
      (generation : ℕ) (c : Client)
      → IsRegistered c
      → IsRegistered (fail_connection cause generation fatal reconnect c)
  unfolding fail_connection fail_outstanding
  fail_connection-IsRegistered generation c h =
      let target : Client = record c { session = session_of (failure_state fatal reconnect) } in
      let start =
        fail_outstanding cause record c { session = session_of (failure_state fatal reconnect) } in
      let started =
        same-IsRegistered c
          (fail_outstanding cause record c { session = session_of (failure_state fatal reconnect) })
          refl h in
      let sound =
        disconnect_subscriptions-IsRegistered
          (fail_outstanding cause record c { session = session_of (failure_state fatal reconnect) })
          started in
      let out = disconnect_subscriptions cause fatal reconnect start in
      elim (Bool-cases (not (generation == c.generation) || is_ending c.session)) [
        | inl k ↦
            same-IsRegistered c (fail_connection cause generation fatal reconnect c)
              (ground (arith, k)) h
        | inr k ↦ elim (Bool-cases out.1) [
          | inl s ↦
              same-IsRegistered
                (disconnect_subscriptions cause fatal reconnect (
                  fail_outstanding cause
                    record c { session = session_of (failure_state fatal reconnect) })).0
                (fail_connection cause generation fatal reconnect c) (ground (arith, k, s)) sound
          | inr s ↦
              same-IsRegistered
                (disconnect_subscriptions cause fatal reconnect (
                  fail_outstanding cause
                    record c { session = session_of (failure_state fatal reconnect) })).0
                (fail_connection cause generation fatal reconnect c) (ground (arith, k, s)) sound
        ]
      ]
