-- ===== src/Ws/Subscription/Pending.antt =====
-- The values in the queue of a subscription, and lists with elements left out.
use eazy_sdk.Prelude.{ℕ, ◌≡◌, refl, sym, ap, subst, Option, List, [], ◌∷◌, ◌++◌}
use mathlib.Core.List.{append_assoc, append-nil}
use eazy_sdk.Ws.Subscription.{
  Payload, SubscriptionError, Event, QueueItem, event, terminal, drop_first,
}

-- A value with the generation of the connection that delivered it.
abbrev pub Item : Type 0
Item = Payload × ℕ

-- `Sublist xs ys`: `xs` is `ys` without some of its elements, in the same order.
pub data Sublist : List Item → List Item → Type 0 where
  done : Sublist [] []
  skip : {xs ys : List Item} (y : Item) → Sublist xs ys → Sublist xs (y ∷ ys)
  keep : {xs ys : List Item} (x : Item) → Sublist xs ys → Sublist (x ∷ xs) (x ∷ ys)

pub Sublist-refl : (xs : List Item) → Sublist xs xs
Sublist-refl [] = done
Sublist-refl (x ∷ xs) = keep x (Sublist-refl xs)

pub Sublist-trans : {xs ys zs : List Item} → Sublist xs ys → Sublist ys zs → Sublist xs zs
Sublist-trans p done = p
Sublist-trans p (skip y q) = skip y (Sublist-trans p q)
Sublist-trans (skip y p) (keep x q) = skip x (Sublist-trans p q)
Sublist-trans (keep y p) (keep x q) = keep x (Sublist-trans p q)

pub Sublist-append :
    {xs ys : List Item} (zs : List Item) → Sublist xs ys → Sublist (xs ++ zs) (ys ++ zs)
Sublist-append zs done = Sublist-refl zs
Sublist-append zs (skip y p) = skip y (Sublist-append zs p)
Sublist-append zs (keep x p) = keep x (Sublist-append zs p)

pub Sublist-left : (xs ys : List Item) → Sublist xs (xs ++ ys)
Sublist-left [] [] = done
Sublist-left [] (y ∷ ys) = skip y (Sublist-left [] ys)
Sublist-left (x ∷ xs) ys = keep x (Sublist-left xs ys)

-- The items of the queued events.
abbrev pub pending : List QueueItem → List Item
pending [] = []
pending (event e ∷ q) = (e.value, e.generation) ∷ pending q
pending (terminal e ∷ q) = pending q

pub pending-event :
    (q : List QueueItem) (e : Event)
    → pending (q ++ event e ∷ []) ≡ pending q ++ (e.value, e.generation) ∷ []
pending-event [] e = refl
pending-event (event x ∷ q) e = ap ((x.value, x.generation) ∷◌) (pending-event q e)
pending-event (terminal x ∷ q) e = pending-event q e

pub pending-terminal :
    (q : List QueueItem) (e : Option SubscriptionError) → pending (q ++ terminal e ∷ []) ≡ pending q
pending-terminal [] e = refl
pending-terminal (event x ∷ q) e = ap ((x.value, x.generation) ∷◌) (pending-terminal q e)
pending-terminal (terminal x ∷ q) e = pending-terminal q e

pub pending-drop_first : (q : List QueueItem) → Sublist (pending (drop_first q)) (pending q)
unfolding drop_first
pending-drop_first [] = done
pending-drop_first (event e ∷ q) = skip _ (Sublist-refl (pending q))
pending-drop_first (terminal e ∷ q) = Sublist-refl (pending q)

pub queue-pending : {q r : List QueueItem} → q ≡ r → Sublist (pending q) (pending r)
queue-pending {q} {r} e = subst (λ z. Sublist (pending q) (pending z)) e (Sublist-refl (pending q))

pub unmoved : {xs ys : List Item} → Sublist xs ys → Sublist xs (ys ++ [])
unmoved {xs} {ys} h = subst (Sublist xs) (sym (append-nil ys)) h

pub Sublist-prepend :
    {xs ys : List Item} (zs : List Item) → Sublist xs ys → Sublist (zs ++ xs) (zs ++ ys)
Sublist-prepend [] h = h
Sublist-prepend (z ∷ zs) h = keep z (Sublist-prepend zs h)

pub Sublist-assoc :
    (a b c d e f : List Item)
    → Sublist (a ++ (b ++ c)) (d ++ e ++ f)
    → Sublist (a ++ b ++ c) (d ++ (e ++ f))
Sublist-assoc a b c d e f h =
    subst (λ z. Sublist z (d ++ (e ++ f))) (sym (append_assoc a b c))
      (subst (Sublist (a ++ (b ++ c))) (append_assoc d e f) h)
