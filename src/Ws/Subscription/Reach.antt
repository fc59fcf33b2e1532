-- ===== src/Ws/Subscription/Reach.antt =====
-- The subscriptions that calls lead to.
use eazy_sdk.Prelude.{ℕ, ◌≡◌, Bool, true, false, some, arith}
use eazy_sdk.Ws.Policies.{ResubscribePolicy, OverflowPolicy}
use eazy_sdk.Ws.Subscription.{new, Subscription, mark_restoring}
use eazy_sdk.Ws.Subscription.Publish.{accepts}
use eazy_sdk.Ws.Subscription.Invariant.{
  fail-IsSound, complete-IsSound, aclose-IsSound, mark_disconnected-IsSound, mark_active-IsSound,
  mark_restoring-IsSound, publish-IsSound, anext-IsSound, IsSound,
}
use eazy_sdk.Ws.Subscription.Calls.{
  Op, published, received, completed_by_server, closed_by_caller, lost, activated, failed_with,
  restored, step,
}

-- The connection restores a subscription only while it is open.
abbrev pub IsDue : Op → Subscription → Type 0
IsDue (restored generation recovered) s = s.closed ≡ false
IsDue _ s = Unit

-- The subscriptions that calls lead to from a given one.
pub data Reaches (s : Subscription) : Subscription → Type 0 where
  start : Reaches s s
  then_call : {t : Subscription} (op : Op) → Reaches s t → IsDue op t → Reaches s (step op t)

pub step-IsSound : (op : Op) (s : Subscription) → IsDue op s → IsSound s → IsSound (step op s)
unfolding step
step-IsSound (published value generation) s d h = publish-IsSound s value generation h
step-IsSound received s d h = anext-IsSound s h
step-IsSound completed_by_server s d h = complete-IsSound s h
step-IsSound closed_by_caller s d h = aclose-IsSound s h
step-IsSound lost s d h = mark_disconnected-IsSound s h
step-IsSound activated s d h = mark_active-IsSound s h
step-IsSound (failed_with e) s d h = fail-IsSound s e h
step-IsSound (restored generation recovered) s d h =
    mark_restoring-IsSound s generation recovered h d

Reaches-step : {s t : Subscription} → Reaches s t → IsSound s → IsSound t
Reaches-step start h = h
Reaches-step (then_call op r d) h = step-IsSound op _ d (Reaches-step r h)

new-IsSound :
    (resubscribe : ResubscribePolicy) (capacity : ℕ) (overflow : OverflowPolicy) (generation : ℕ)
    (s : Subscription)
    → new resubscribe capacity overflow generation ≡ some s
    → IsSound s
unfolding new
new-IsSound resubscribe capacity overflow generation s p = ground arith

-- Whatever calls reach, as long as only open subscriptions are restored: the queue stays within
-- the capacity, the subscription is closed exactly in a final state, an open one queues events
-- only, and a closed one has nothing behind its terminal.
pub Reaches-IsSound :
    (resubscribe : ResubscribePolicy) (capacity : ℕ) (overflow : OverflowPolicy) (generation : ℕ)
    (s t : Subscription)
    → new resubscribe capacity overflow generation ≡ some s
    → Reaches s t
    → IsSound t
Reaches-IsSound resubscribe capacity overflow generation s t p r =
    Reaches-step r (new-IsSound resubscribe capacity overflow generation s p)

-- `mark_restoring` does not look at `closed`: a closed subscription that was sound takes events
-- again and is not sound any more.
pub mark_restoring_revives :
    (s : Subscription) (generation : ℕ) (recovered : Bool)
    → IsSound s
    → s.closed ≡ true
    → (accepts (mark_restoring s generation recovered).state ≡ true)
      × ((mark_restoring s generation recovered).closed ≡ true)
      × ¬ IsSound (mark_restoring s generation recovered)
unfolding mark_restoring
mark_restoring_revives s generation recovered h c =
    (ground arith, ground arith, λ k. ground (arith, k.final))
