-- ===== src/Ws/Client/Dropped.antt =====
-- What the removal of subscriptions leaves in the registries.
use eazy_sdk.Prelude.{
  ℕ, ◌≡◌, refl, sym, subst, Option, none, some, String, List, [], ◌∷◌, get_elem?, str_eq, inl, inr,
  arith, Option-cases,
}
use eazy_sdk.Dict.{Mem, remove}
use eazy_sdk.Dict.Distinct.{Distinct}
use eazy_sdk.Dict.Every.{All_at}
use eazy_sdk.Ws.Subscription.{SubscriptionError, Subscription, fail}
use eazy_sdk.Ws.Client.{Client, SubscriptionRecord, alter}
use eazy_sdk.Ws.Client.Table.{drop_key, remove_subscription}
use eazy_sdk.Ws.Client.Failure.{change_subscription, fail_subscription, fail_subscriptions}
use eazy_sdk.Ws.Client.Registry.{
  IsRegistered, Routes, Stands, Routes-alter, Routes-drop_key, drop_key-Distinct, remove-Mem,
  Mem-remove,
}

module _ (f : Subscription → Subscription) (i : ℕ) (c : Client) where
  -- A subscription that changes leaves the registries sound.
  pub change-IsRegistered :
      IsRegistered c
      → IsRegistered (record c { records = alter (change_subscription f) i c.records })
  unfolding change_subscription
  change-IsRegistered h = record {
    channels =
        Routes-alter (λ r. r.channel) (change_subscription f) i c.records c.by_channel (λ r. refl)
          h.channels;
    correlations =
        Routes-alter (λ r. r.correlation) (change_subscription f) i c.records c.by_correlation
          (λ r. refl) h.correlations;
    channel_keys = h.channel_keys;
    correlation_keys = h.correlation_keys;
  }

pub remove_subscription-IsRegistered :
    (i : ℕ) (c : Client) → IsRegistered c → IsRegistered (remove_subscription i c)
unfolding remove_subscription
remove_subscription-IsRegistered i c h = elim (Option-cases (get_elem? c.records i)) [
  | inl n ↦ let same : c ≡ remove_subscription i c = ground (arith, n) in subst IsRegistered same h
  | inr r ↦
      let out : Client = record c {
        by_channel = drop_key r.0.channel c.by_channel;
        by_correlation = drop_key r.0.correlation c.by_correlation;
      } in
      let same : out ≡ remove_subscription i c = ground (arith, r.1) in
      subst IsRegistered same (record {
        channels = Routes-drop_key (λ x. x.channel) c.records r.0.channel c.by_channel h.channels;
        correlations =
            Routes-drop_key (λ x. x.correlation) c.records r.0.correlation c.by_correlation
              h.correlations;
        channel_keys = drop_key-Distinct r.0.channel c.by_channel h.channel_keys;
        correlation_keys = drop_key-Distinct r.0.correlation c.by_correlation h.correlation_keys;
      })
]

pub fail_subscription-IsRegistered :
    (e : SubscriptionError) (i : ℕ) (c : Client)
    → IsRegistered c
    → IsRegistered (fail_subscription e i c)
unfolding fail_subscription
fail_subscription-IsRegistered e i c h =
    remove_subscription-IsRegistered i
      (record c { records = alter (change_subscription λ s. fail s e) i c.records })
      (change-IsRegistered (λ s. fail s e) i c h)

pub fail_subscriptions-IsRegistered :
    (e : SubscriptionError) (refs : List ℕ) (c : Client)
    → IsRegistered c
    → IsRegistered (fail_subscriptions e refs c)
unfolding fail_subscriptions
fail_subscriptions-IsRegistered e [] c h = h
fail_subscriptions-IsRegistered e (i ∷ refs) c h =
    fail_subscriptions-IsRegistered e refs (fail_subscription e i c)
      (fail_subscription-IsRegistered e i c h)

-- The key of a record's route is gone from a registry once it is dropped.
drop_key-Mem :
    (route : SubscriptionRecord → Option String) (c : Client) (registry : List (String × ℕ))
    (r : SubscriptionRecord) (kv : String × ℕ)
    → Routes route c.records registry
    → Distinct str_eq registry
    → Mem kv (drop_key (route r) registry)
    → Mem kv registry × (get_elem? c.records kv.1 ≡ some r → ⊥)
unfolding drop_key
drop_key-Mem route c registry r kv h d m =
    let stands : Mem kv registry → Stands route c.records kv =
      λ there. All_at (Stands route c.records) registry kv h there in
    elim (Option-cases (route r)) [
      | inl n ↦
          let same : drop_key (route r) registry ≡ registry = ground (arith, n) in
          let there : Mem kv registry = subst (Mem kv) same m in
          (there, λ e. ground (arith, n, e, (stands there).1, (stands there).2))
      | inr key ↦
          let same : drop_key (route r) registry ≡ remove str_eq key.0 registry =
            ground (arith, key.1) in
          let left : Mem kv (remove str_eq key.0 registry) = subst (Mem kv) same m in
          let there = Mem-remove key.0 kv registry left in
          (
            there,
            λ e.
                let same_key : key.0 ≡ kv.0 =
                  ground (arith, key.1, e, (stands there).1, (stands there).2) in
                remove-Mem kv registry d
                  (subst (λ z. Mem kv (remove str_eq z registry)) same_key left),
          )
    ]

-- A registry once the record at a place is removed.
abbrev pub dropped :
    (SubscriptionRecord → Option String)
    → List SubscriptionRecord
    → ℕ
    → List (String × ℕ)
    → List (String × ℕ)
dropped route records i registry = elim (get_elem? records i) [
  | none ↦ registry
  | some r ↦ drop_key (route r) registry
]

pub remove_subscription-dropped :
    (i : ℕ) (c : Client)
    → ((remove_subscription i c).by_channel ≡ dropped (λ r. r.channel) c.records i c.by_channel)
      × ((remove_subscription i c).by_correlation
          ≡ dropped (λ r. r.correlation) c.records i c.by_correlation)
unfolding remove_subscription
remove_subscription-dropped i c = elim (Option-cases (get_elem? c.records i)) [
  | inl n ↦ (ground (arith, n), ground (arith, n))
  | inr r ↦ (ground (arith, r.1), ground (arith, r.1))
]

pub dropped-Mem :
    (route : SubscriptionRecord → Option String) (c : Client) (registry : List (String × ℕ)) (i : ℕ)
    (kv : String × ℕ)
    → Routes route c.records registry
    → Distinct str_eq registry
    → Mem kv (dropped route c.records i registry)
    → Mem kv registry × (kv.1 ≡ i → ⊥)
dropped-Mem route c registry i kv h d m = elim (Option-cases (get_elem? c.records i)) [
  | inl n ↦
      let same : dropped route c.records i registry ≡ registry = ground (arith, n) in
      let there : Mem kv registry = subst (Mem kv) same m in
      (
        there,
        λ e.
            let stands = All_at (Stands route c.records) registry kv h there in
            ground (arith, n, stands.1, e),
      )
  | inr r ↦
      let same : dropped route c.records i registry ≡ drop_key (route r.0) registry =
        ground (arith, r.1) in
      let left = drop_key-Mem route c registry r.0 kv h d (subst (Mem kv) same m) in
      (left.0, λ e. left.1 (subst (λ z. get_elem? c.records z ≡ some r.0) (sym e) r.1))
]
