-- ===== src/Ws/Subscription/Queue.antt =====
-- The order of the items in a queue of events with a terminal at its end.
use eazy_sdk.Prelude.{
  leb, Bool-cases, inl, inr, if◌then◌else◌, ℕ, ◌+◌, ◌≤◌, ◌<◌, ◌≡◌, Bool, true, false, List, [], ◌∷◌,
  ◌++◌, length, All, arith,
}
use eazy_sdk.Ws.Subscription.{QueueItem, event, terminal, drop_first}

abbrev pub IsEvent : QueueItem → Type 0
IsEvent (event e) = Unit
IsEvent (terminal e) = ⊥

-- Only the last item may be a terminal.
abbrev pub TerminalLast : List QueueItem → Type 0
TerminalLast [] = Unit
TerminalLast (event e ∷ q) = TerminalLast q
TerminalLast (terminal e ∷ []) = Unit
TerminalLast (terminal e ∷ x ∷ q) = ⊥

pub All-IsEvent-TerminalLast : (q : List QueueItem) → All IsEvent q → TerminalLast q
All-IsEvent-TerminalLast [] h = tt
All-IsEvent-TerminalLast (event e ∷ q) h = All-IsEvent-TerminalLast q h.1
All-IsEvent-TerminalLast (terminal e ∷ q) h = absurd h.0

pub TerminalLast-snoc :
    (q : List QueueItem) (x : QueueItem) → All IsEvent q → TerminalLast (q ++ x ∷ [])
TerminalLast-snoc [] (event e) h = tt
TerminalLast-snoc [] (terminal e) h = tt
TerminalLast-snoc (event e ∷ q) x h = TerminalLast-snoc q x h.1
TerminalLast-snoc (terminal e ∷ q) x h = absurd h.0

pub All-snoc :
    (q : List QueueItem) (x : QueueItem) → All IsEvent q → IsEvent x → All IsEvent (q ++ x ∷ [])
All-snoc [] x h e = (e, tt)
All-snoc (y ∷ q) x h e = (h.0, All-snoc q x h.1 e)

pub All-drop_first : (q : List QueueItem) → All IsEvent q → All IsEvent (drop_first q)
unfolding drop_first
All-drop_first [] h = tt
All-drop_first (x ∷ q) h = h.1

pub length-drop_first : (q : List QueueItem) → length (drop_first q) ≤ length q
unfolding drop_first
length-drop_first [] = omega arith
length-drop_first (x ∷ q) = omega arith

pub length-snoc : (q : List QueueItem) (x : QueueItem) → length (q ++ x ∷ []) ≡ length q + 1
length-snoc [] x = omega arith
length-snoc (y ∷ q) x = omega (arith, length-snoc q x)

pub length-drop_first-pos :
    (q : List QueueItem) → 0 < length q → length (drop_first q) + 1 ≡ length q
unfolding drop_first
length-drop_first-pos [] h = elim h [ ]
length-drop_first-pos (x ∷ q) h = omega arith

pub TerminalLast-tail : (x : QueueItem) (q : List QueueItem) → TerminalLast (x ∷ q) → TerminalLast q
TerminalLast-tail (event e) q h = h
TerminalLast-tail (terminal e) [] h = tt
TerminalLast-tail (terminal e) (y ∷ q) h = elim h [ ]

-- A queue with room for the last item keeps its bound.
pub length-room :
    (capacity : ℕ) (q : List QueueItem) (x : QueueItem)
    → 0 < capacity
    → length q ≤ capacity
    → length ((if leb capacity (length q) then drop_first q else q) ++ x ∷ []) ≤ capacity
length-room capacity q x r b = elim (Bool-cases (leb capacity (length q))) [
  | inl p ↦ ground (arith, length-snoc (drop_first q) x, length-drop_first-pos q)
  | inr p ↦ ground (arith, length-snoc q x)
]

pub TerminalLast-room :
    (test : Bool) (q : List QueueItem) (x : QueueItem)
    → All IsEvent q
    → TerminalLast ((if test then drop_first q else q) ++ x ∷ [])
TerminalLast-room true q x h = TerminalLast-snoc (drop_first q) x (All-drop_first q h)
TerminalLast-room false q x h = TerminalLast-snoc q x h
