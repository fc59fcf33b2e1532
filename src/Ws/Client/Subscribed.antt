-- ===== src/Ws/Client/Subscribed.antt =====
-- A new registration, and a new route for a record that is restored.
use eazy_sdk.Prelude.{
  ℕ, ◌+◌, ◌≡◌, refl, ◌∙◌, subst, Option, none, some, String, List, [], ◌∷◌, ◌++◌, get_elem?, length,
  inl, inr, arith, Bool-cases, Option-cases, str_eq, is_some,
}
use eazy_sdk.Dict.{Mem, lookup, put, remove}
use eazy_sdk.Dict.Every.{All_at, All-of}
use eazy_sdk.Dict.Distinct.{Distinct, put-Distinct, remove-Distinct}
use eazy_sdk.Ws.Decisions.{is_never}
use eazy_sdk.Ws.Subscription.{Subscription, mark_restoring}
use eazy_sdk.Ws.Client.{Client, SubscriptionRecord, alter, allocate_correlation}
use eazy_sdk.Ws.Client.Table.{register_subscription}
use eazy_sdk.Ws.Client.Failure.{change_subscription}
use eazy_sdk.Ws.Client.Connect.{recorrelate_record, restore_one, recovers}
use eazy_sdk.Ws.Client.Registry.{
  IsRegistered, Routes, Stands, Routes-alter, Routes-snoc, get_elem?-last, get_elem?-alter_self,
  get_elem?-alter_other, put-entries, remove-Mem, Mem-remove,
}
use eazy_sdk.Ws.Client.Dropped.{change-IsRegistered}
use eazy_sdk.Ws.Client.Routed.{same-IsRegistered}

-- A record at the end of the heap, and its route in one of the registries.
module _ (route : SubscriptionRecord → Option String) (records : List SubscriptionRecord)
    (registry : List (String × ℕ)) (r : SubscriptionRecord) (key : String) where
  added-Routes :
      route r ≡ some key
      → Routes route records registry
      → Routes route (records ++ r ∷ []) (put str_eq key (length records) registry)
  added-Routes e h =
      put-entries (Stands route (records ++ r ∷ [])) key (length records) registry
        (r, get_elem?-last records r, e) (Routes-snoc route records r registry h)

pub register_subscription-IsRegistered :
    (str : ℕ → String) (subscription : Subscription) (channel : Option String) (c : Client)
    → IsRegistered c
    → IsRegistered (register_subscription str subscription channel c).1
unfolding register_subscription allocate_correlation
register_subscription-IsRegistered str subscription (some channel) c h =
    elim (Bool-cases (is_some (lookup str_eq channel c.by_channel))) [
      | inl k ↦
          same-IsRegistered c (register_subscription str subscription (some channel) c).1
            (ground (arith, k)) h
      | inr k ↦
          let r : SubscriptionRecord = record {
            subscription = subscription;
            correlation = none;
            channel = some channel;
          } in
          let out : Client = record c {
            records = c.records ++ r ∷ [];
            by_channel = put str_eq channel (length c.records) c.by_channel;
          } in
          same-IsRegistered out (register_subscription str subscription (some channel) c).1
            (ground (arith, k))
            record {
              channels =
                  added-Routes (λ x. x.channel) c.records c.by_channel r channel refl h.channels;
              correlations =
                  Routes-snoc (λ x. x.correlation) c.records r c.by_correlation h.correlations;
              channel_keys =
                  put-Distinct str_eq channel (length c.records) c.by_channel h.channel_keys;
              correlation_keys = h.correlation_keys;
            }
    ]
register_subscription-IsRegistered str subscription none c h =
    let key : String = str (c.next_correlation + 1) in
    elim (Bool-cases (is_some (lookup str_eq key c.by_correlation))) [
      | inl k ↦
          same-IsRegistered c (register_subscription str subscription none c).1 (ground (arith, k))
            h
      | inr k ↦
          let r : SubscriptionRecord = record {
            subscription = subscription;
            correlation = some key;
            channel = none;
          } in
          let out : Client = record c {
            records = c.records ++ r ∷ [];
            by_correlation = put str_eq key (length c.records) c.by_correlation;
            next_correlation = c.next_correlation + 1;
          } in
          same-IsRegistered out (register_subscription str subscription none c).1
            (ground (arith, k))
            record {
              channels = Routes-snoc (λ x. x.channel) c.records r c.by_channel h.channels;
              correlations =
                  added-Routes (λ x. x.correlation) c.records c.by_correlation r key refl
                    h.correlations;
              channel_keys = h.channel_keys;
              correlation_keys =
                  put-Distinct str_eq key (length c.records) c.by_correlation h.correlation_keys;
            }
    ]

abbrev recorrelated : String → SubscriptionRecord → SubscriptionRecord
recorrelated key x = record x { correlation = some key }

-- Once the old route of a record is gone, the others stand whatever becomes of the record.
others-Routes :
    (records : List SubscriptionRecord) (registry : List (String × ℕ)) (i : ℕ)
    (r : SubscriptionRecord) (old key : String)
    → get_elem? records i ≡ some r
    → r.correlation ≡ some old
    → Distinct str_eq registry
    → Routes (λ x. x.correlation) records registry
    → Routes (λ x. x.correlation) (alter (recorrelated key) i records) (remove str_eq old registry)
others-Routes records registry i r old key at e d h =
    All-of (Stands (λ x. x.correlation) (alter (recorrelated key) i records))
      (remove str_eq old registry)
      λ kv m.
        let stands =
          All_at (Stands (λ x. x.correlation) records) registry kv h
            (Mem-remove old kv registry m) in
        let apart : i ≡ kv.1 → ⊥ = λ q.
          let same : old ≡ kv.0 =
            ground (arith, e, stands.1, stands.2, subst (λ z. get_elem? records z ≡ some r) q at) in
          remove-Mem kv registry d (subst (λ z. Mem kv (remove str_eq z registry)) same m) in
        (
          stands.0,
          get_elem?-alter_other (recorrelated key) i kv.1 records apart ∙ stands.1,
          stands.2,
        )

pub recorrelate_record-IsRegistered :
    (str : ℕ → String) (i : ℕ) (c : Client)
    → IsRegistered c
    → IsRegistered (recorrelate_record str i c)
unfolding recorrelate_record allocate_correlation
recorrelate_record-IsRegistered str i c h = elim (Option-cases (get_elem? c.records i)) [
  | inl n ↦ same-IsRegistered c (recorrelate_record str i c) (ground (arith, n)) h
  | inr r ↦ elim (Option-cases r.0.correlation) [
    | inl n ↦ same-IsRegistered c (recorrelate_record str i c) (ground (arith, r.1, n)) h
    | inr old ↦
        let key : String = str (c.next_correlation + 1) in
        let out : Client = record c {
          records = alter (recorrelated key) i c.records;
          by_correlation = put str_eq key i (remove str_eq old.0 c.by_correlation);
          next_correlation = c.next_correlation + 1;
        } in
        same-IsRegistered out (recorrelate_record str i c) (ground (arith, r.1, old.1)) record {
          channels =
              Routes-alter (λ x. x.channel) (recorrelated key) i c.records c.by_channel (λ x. refl)
                h.channels;
          correlations =
              put-entries (Stands (λ x. x.correlation) (alter (recorrelated key) i c.records)) key i
                (remove str_eq old.0 c.by_correlation)
                (
                  recorrelated key r.0,
                  get_elem?-alter_self (recorrelated key) i c.records r.0 r.1,
                  refl,
                )
                (others-Routes c.records c.by_correlation i r.0 old.0 key r.1 old.1
                  h.correlation_keys h.correlations);
          channel_keys = h.channel_keys;
          correlation_keys =
              put-Distinct str_eq key i (remove str_eq old.0 c.by_correlation)
                (remove-Distinct str_eq old.0 c.by_correlation h.correlation_keys);
        }
  ]
]

pub restore_one-IsRegistered :
    (str : ℕ → String) (generation i : ℕ) (c : Client)
    → IsRegistered c
    → IsRegistered (restore_one str generation i c)
unfolding restore_one
restore_one-IsRegistered str generation i c h = elim (Option-cases (get_elem? c.records i)) [
  | inl n ↦ same-IsRegistered c (restore_one str generation i c) (ground (arith, n)) h
  | inr r ↦ elim (Bool-cases (is_never r.0.subscription.resubscribe)) [
    | inl k ↦ same-IsRegistered c (restore_one str generation i c) (ground (arith, r.1, k)) h
    | inr k ↦
        let keyed = recorrelate_record-IsRegistered str i c h in
        let out =
          change-IsRegistered (λ s. mark_restoring s generation (recovers s.resubscribe)) i
            (recorrelate_record str i c) keyed in
        let after : Client = record (recorrelate_record str i c) {
          records =
              alter (change_subscription λ s. mark_restoring s generation (recovers s.resubscribe))
                i (recorrelate_record str i c).records;
        } in
        same-IsRegistered after (restore_one str generation i c) (ground (arith, r.1, k)) out
  ]
]
