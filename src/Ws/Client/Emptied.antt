-- ===== src/Ws/Client/Emptied.antt =====
-- To fail all subscriptions of a client empties its registries.
use eazy_sdk.Prelude.{
  ℕ, ◌≡◌, refl, sym, ap, subst, true, String, List, [], ◌∷◌, ◌++◌, ◌==◌, inl, inr, ◌⊎◌, arith,
  Bool-cases, elem,
}
use eazy_sdk.Dict.{Mem}
use eazy_sdk.Ws.Subscription.{SubscriptionError, fail}
use eazy_sdk.Ws.Client.{Client, alter}
use eazy_sdk.Ws.Client.Table.{subscription_records, unseen, places}
use eazy_sdk.Ws.Client.Failure.{change_subscription, fail_subscription, fail_subscriptions}
use eazy_sdk.Ws.Client.Registry.{IsRegistered}
use eazy_sdk.Ws.Client.Dropped.{
  change-IsRegistered, fail_subscription-IsRegistered, dropped-Mem, remove_subscription-dropped,
}

-- An entry is left in a registry after the removal of some records.
abbrev Left : List ℕ → List (String × ℕ) → String × ℕ → Type 0
Left refs registry kv = Mem kv registry × (Mem kv.1 refs → ⊥)

fail_subscription_left :
    (e : SubscriptionError) (i : ℕ) (c : Client) (kv : String × ℕ)
    → IsRegistered c
    → (Mem kv (fail_subscription e i c).by_channel → Mem kv c.by_channel × (kv.1 ≡ i → ⊥))
      × (Mem kv (fail_subscription e i c).by_correlation → Mem kv c.by_correlation × (kv.1 ≡ i → ⊥))
unfolding fail_subscription
fail_subscription_left e i c kv h =
    let changed : Client = record c {
      records = alter (change_subscription λ s. fail s e) i c.records;
    } in
    let sound = change-IsRegistered (λ s. fail s e) i c h in
    let out =
      remove_subscription-dropped i
        (record c { records = alter (change_subscription λ s. fail s e) i c.records }) in
    (
      λ m.
          dropped-Mem (λ r. r.channel) changed c.by_channel i kv sound.channels sound.channel_keys
            (subst (Mem kv) out.0 m),
      λ m.
          dropped-Mem (λ r. r.correlation) changed c.by_correlation i kv sound.correlations
            sound.correlation_keys (subst (Mem kv) out.1 m),
    )

fail_subscriptions_left :
    (e : SubscriptionError) (refs : List ℕ) (c : Client) (kv : String × ℕ)
    → IsRegistered c
    → (Mem kv (fail_subscriptions e refs c).by_channel → Left refs c.by_channel kv)
      × (Mem kv (fail_subscriptions e refs c).by_correlation → Left refs c.by_correlation kv)
unfolding fail_subscriptions
fail_subscriptions_left e [] c kv h = (λ m. (m, λ n. elim n [ ]), λ m. (m, λ n. elim n [ ]))
fail_subscriptions_left e (i ∷ refs) c kv h =
    let one = fail_subscription_left e i c kv h in
    let rest =
      fail_subscriptions_left e refs (fail_subscription e i c) kv
        (fail_subscription-IsRegistered e i c h) in
    (
      λ m.
          let later = rest.0 m in
          let first = one.0 later.0 in
          (first.0, λ n. elim n [ inl q ↦ first.1 q | inr k ↦ later.1 k ]),
      λ m.
          let later = rest.1 m in
          let first = one.1 later.0 in
          (first.0, λ n. elim n [ inl q ↦ first.1 q | inr k ↦ later.1 k ]),
    )

Mem-unseen :
    (seen refs : List ℕ) (i : ℕ) → Mem i refs → (elem i seen ≡ true) ⊎ Mem i (unseen seen refs)
unfolding unseen
Mem-unseen seen [] i m = elim m [ ]
Mem-unseen seen (j ∷ refs) i m = elim (Bool-cases (elem j seen)) [
  | inl e ↦
      let same : unseen seen refs ≡ unseen seen (j ∷ refs) = ground (arith, e) in
      elim m [
        | inl q ↦ inl (subst (λ z. elem z seen ≡ true) (sym q) e)
        | inr k ↦ elim (Mem-unseen seen refs i k) [
          | inl there ↦ inl there
          | inr there ↦ inr (subst (Mem i) same there)
        ]
      ]
  | inr e ↦
      let same : j ∷ unseen (j ∷ seen) refs ≡ unseen seen (j ∷ refs) = ground (arith, e) in
      elim (Bool-cases (i == j)) [
        | inl q ↦ inr (subst (Mem i) same (inl (ground (arith, q))))
        | inr q ↦ elim m [
          | inl q' ↦ absurd (ground (arith, q, q'))
          | inr k ↦ elim (Mem-unseen (j ∷ seen) refs i k) [
            | inl there ↦ inl (ground (arith, q, there))
            | inr there ↦ inr (subst (Mem i) same (inr there))
          ]
        ]
      ]
]

Mem-places :
    (kv : String × ℕ) (registry : List (String × ℕ)) → Mem kv registry → Mem kv.1 (places registry)
Mem-places kv [] m = elim m [ ]
Mem-places kv (x ∷ registry) (inl e) = inl (ap (λ (z : String × ℕ). z.1) e)
Mem-places kv (x ∷ registry) (inr m) = inr (Mem-places kv registry m)

Mem-append : (i : ℕ) (l m : List ℕ) → Mem i l ⊎ Mem i m → Mem i (l ++ m)
Mem-append i [] m (inl h) = elim h [ ]
Mem-append i [] m (inr h) = h
Mem-append i (x ∷ l) m (inl (inl e)) = inl e
Mem-append i (x ∷ l) m (inl (inr h)) = inr (Mem-append i l m (inl h))
Mem-append i (x ∷ l) m (inr h) = inr (Mem-append i l m (inr h))

nothing_left :
    (registry : List (String × ℕ)) → ((kv : String × ℕ) → Mem kv registry → ⊥) → registry ≡ []
nothing_left [] h = refl
nothing_left (kv ∷ registry) h = absurd (h kv (inl refl))

-- To fail all subscriptions of a client empties both registries.
pub fail_all_empties :
    (e : SubscriptionError) (c : Client)
    → IsRegistered c
    → ((fail_subscriptions e (subscription_records c) c).by_channel ≡ [])
      × ((fail_subscriptions e (subscription_records c) c).by_correlation ≡ [])
unfolding subscription_records
fail_all_empties e c h =
    let listed : (i : ℕ)
        → Mem i (places c.by_channel ++ places c.by_correlation)
        → Mem i (unseen [] (places c.by_channel ++ places c.by_correlation)) =
      λ i m. elim (Mem-unseen [] (places c.by_channel ++ places c.by_correlation) i m) [
        | inl e' ↦ absurd (ground (arith, e'))
        | inr there ↦ there
      ] in
    (
      nothing_left (fail_subscriptions e (subscription_records c) c).by_channel (λ kv m.
          let left = (fail_subscriptions_left e (subscription_records c) c kv h).0 m in
          left.1 (
            listed kv.1 (
              Mem-append kv.1 (places c.by_channel) (places c.by_correlation)
                (inl (Mem-places kv c.by_channel left.0))))),
      nothing_left (fail_subscriptions e (subscription_records c) c).by_correlation (λ kv m.
          let left = (fail_subscriptions_left e (subscription_records c) c kv h).1 m in
          left.1 (
            listed kv.1 (
              Mem-append kv.1 (places c.by_channel) (places c.by_correlation)
                (inr (Mem-places kv c.by_correlation left.0))))),
    )
