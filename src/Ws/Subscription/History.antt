-- ===== src/Ws/Subscription/History.antt =====
-- What calls offer to a subscription, what it takes and what its iterator yields.
use eazy_sdk.Prelude.{◌≡◌, refl, sym, ap, none, some, List, [], ◌∷◌, ◌++◌, if◌then◌else◌}
use eazy_sdk.Ws.Subscription.{QueueItem, event, terminal, Subscription}
use eazy_sdk.Ws.Subscription.Publish.{publish, anext, anext_from, Next, yields, next_item}
use eazy_sdk.Ws.Subscription.Calls.{Op, published, received, step}
use eazy_sdk.Ws.Subscription.Pending.{Item, pending}

-- What a call hands to the consumer.
abbrev pub yielded_by : Next → List Item
yielded_by (yields e) = (e.value, e.generation) ∷ []
yielded_by _ = []

abbrev pub yielded : Op → Subscription → List Item
yielded received s = yielded_by (anext s).0
yielded _ s = []

abbrev pub offered : Op → List Item
offered (published value generation) = (value, generation) ∷ []
offered _ = []

-- What a call adds to the queue, as `publish` reports it.
abbrev pub accepted : Op → Subscription → List Item
accepted (published value generation) s =
    if (publish s value generation).1 then (value, generation) ∷ [] else []
accepted _ s = []

-- The state after calls, in their order.
unfoldable pub after : List Op → Subscription → Subscription
after [] s = s
after (op ∷ ops) s = after ops (step op s)

unfoldable pub all_yielded : List Op → Subscription → List Item
all_yielded [] s = []
all_yielded (op ∷ ops) s = yielded op s ++ all_yielded ops (step op s)

unfoldable pub all_offered : List Op → List Item
all_offered [] = []
all_offered (op ∷ ops) = offered op ++ all_offered ops

unfoldable pub all_accepted : List Op → Subscription → List Item
all_accepted [] s = []
all_accepted (op ∷ ops) s = accepted op s ++ all_accepted ops (step op s)

pub anext_from-pending :
    (q : List QueueItem) (s : Subscription)
    → s.queue ≡ q
    → pending q ≡ yielded_by (anext_from q s).0 ++ pending (anext_from q s).1.queue
unfolding anext_from next_item
anext_from-pending [] s e = ap pending (sym e)
anext_from-pending (event x ∷ q) s e = refl
anext_from-pending (terminal none ∷ q) s e = refl
anext_from-pending (terminal (some x) ∷ q) s e = refl

pub anext-pending :
    (s : Subscription) → pending s.queue ≡ yielded received s ++ pending (anext s).1.queue
unfolding anext
anext-pending s = anext_from-pending s.queue s refl
