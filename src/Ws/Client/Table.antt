-- ===== src/Ws/Client/Table.antt =====
-- The registries of subscriptions of a WebSocket client: eazy_sdk/websocket/_outbound.py.
use eazy_sdk.Prelude.{
  ℕ, true, false, Option, none, some, String, List, [], ◌∷◌, ◌++◌, get_elem?, length, str_eq,
  is_some, map, elem, if◌then◌else◌,
}
use eazy_sdk.Dict.{lookup, put, remove}
use eazy_sdk.Ws.Subscription.{Subscription}
use eazy_sdk.Ws.Client.{Client, allocate_correlation}

-- `_subscription_records`, without the records in `seen`.
unfoldable pub unseen : List ℕ → List ℕ → List ℕ
unseen seen [] = []
unseen seen (i ∷ rest) = elim (elem i seen) [
  | true ↦ unseen seen rest
  | false ↦ i ∷ unseen (i ∷ seen) rest
]

abbrev pub places : List (String × ℕ) → List ℕ
places registry = map (λ (kv : String × ℕ). kv.1) registry

unfoldable pub subscription_records : Client → List ℕ
unfolding unseen
subscription_records c = unseen [] (places c.by_channel ++ places c.by_correlation)

-- `pop(key, None)` where the record has a key.
unfoldable pub drop_key : Option String → List (String × ℕ) → List (String × ℕ)
unfolding remove
drop_key none registry = registry
drop_key (some key) registry = remove str_eq key registry

-- `_remove_subscription`
unfoldable pub remove_subscription : ℕ → Client → Client
unfolding drop_key
remove_subscription i c = elim (get_elem? c.records i) [
  | none ↦ c
  | some r ↦ record c {
    by_channel = drop_key r.channel c.by_channel;
    by_correlation = drop_key r.correlation c.by_correlation;
  }
]

-- `subscribe`, from the allocation of a correlation to `registry[route] = record`: `none` where it
-- raises "duplicate active subscription route".
unfoldable pub register_subscription :
    (ℕ → String) → Subscription → Option String → Client → Option ℕ × Client
unfolding allocate_correlation lookup put
register_subscription str subscription (some channel) c =
    if is_some (lookup str_eq channel c.by_channel) then (none, c) else (
      some (length c.records),
      record c {
        records =
            c.records
            ++ record { subscription = subscription; correlation = none; channel = some channel }
              ∷ [];
        by_channel = put str_eq channel (length c.records) c.by_channel;
      },
    )
register_subscription str subscription none c =
    let allocated = allocate_correlation str c in
    if is_some (lookup str_eq allocated.0 c.by_correlation) then (none, allocated.1) else (
      some (length c.records),
      record allocated.1 {
        records =
            c.records
            ++ record {
              subscription = subscription;
              correlation = some allocated.0;
              channel = none;
            }
              ∷ [];
        by_correlation = put str_eq allocated.0 (length c.records) c.by_correlation;
      },
    )
