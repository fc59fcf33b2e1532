-- ===== src/Http/Attempts/Chain.antt =====
-- Chains of attempts, and what the budgets are along them.
use eazy_sdk.Prelude.{
  ℕ, suc, ◌+◌, ◌≤◌, String, ◌≡◌, sym, subst, Bool, false, some, List, [], ◌∷◌, length, All, ℤ, pos,
  ◌≤ℤ◌, ◌-ℤ◌, true, pos_part, -ℤ_parts, pos_part-pred, arith,
}
use eazy_sdk.Http.Attempts.{
  Replays, values, replays_left, spend_replay, AttemptBudgets, AttemptState,
}
use eazy_sdk.Http.Attempts.Transition.{
  SameTarget, Transition, retried, proposed, refreshed, redirected, replayed,
}

-- Each attempt of the list follows from the one before it.
abbrev pub Linked : Bool → AttemptState → List AttemptState → Type 0
Linked idempotent s [] = Unit
Linked idempotent s (t ∷ l) = Transition idempotent s t × Linked idempotent t l

-- A list of attempts that begins at a state, if it is not empty.
abbrev pub IsChain : Bool → AttemptState → List AttemptState → Type 0
IsChain idempotent s [] = Unit
IsChain idempotent s (t ∷ l) = (t ≡ s) × Linked idempotent s l

pub Linked-cons :
    {idempotent : Bool} {s t : AttemptState} (l : List AttemptState)
    → Transition idempotent s t
    → IsChain idempotent t l
    → Linked idempotent s l
Linked-cons [] h c = tt
Linked-cons (u ∷ l) h c = rw c.0 (h, c.1)

-- A transition counts one attempt more and keeps the limit.
pub record Advances (s t : AttemptState) : Type 0 where
  pub number : t.number ≡ suc s.number
  pub hard_limit : t.budgets.hard_limit ≡ s.budgets.hard_limit

pub Transition-Advances :
    {idempotent : Bool} {s t : AttemptState} → Transition idempotent s t → Advances s t
Transition-Advances (retried n i left b t) = record { number = n; hard_limit = cc }
Transition-Advances (proposed n i b t) = record { number = n; hard_limit = cc }
Transition-Advances (refreshed n i left b t) = record { number = n; hard_limit = cc }
Transition-Advances (redirected n left b r) = record { number = n; hard_limit = cc }
Transition-Advances (replayed p k n e left b t) = record { number = n; hard_limit = cc }

-- No budget is overdrawn.
abbrev pub IsSolvent : AttemptBudgets → Type 0
IsSolvent b =
    (pos 0 ≤ℤ b.transport)
    × (pos 0 ≤ℤ b.auth)
    × (pos 0 ≤ℤ b.redirect)
    × All (λ n. pos 0 ≤ℤ n) (values b.replays)

spend_replay-solvent :
    (policy : String) (n : ℤ) (r : Replays)
    → replays_left policy r ≡ some n
    → pos 1 ≤ℤ n
    → All (λ n. pos 0 ≤ℤ n) (values r)
    → All (λ n. pos 0 ≤ℤ n) (values (spend_replay policy r))
unfolding replays_left spend_replay
spend_replay-solvent policy n [] e h a = a
spend_replay-solvent policy n ((name, k) ∷ r) e h a =
    ground (arith, -ℤ_parts k (pos 1), spend_replay-solvent policy n r)

Transition-IsSolvent :
    {idempotent : Bool} {s t : AttemptState}
    → Transition idempotent s t
    → IsSolvent s.budgets
    → IsSolvent t.budgets
Transition-IsSolvent {s = s} (retried n i left b t) h =
    ground (arith, -ℤ_parts s.budgets.transport (pos 1))
Transition-IsSolvent (proposed n i b t) h = rw b h
Transition-IsSolvent {s = s} (refreshed n i left b t) h =
    ground (arith, -ℤ_parts s.budgets.auth (pos 1))
Transition-IsSolvent {s = s} (redirected n left b r) h =
    ground (arith, -ℤ_parts s.budgets.redirect (pos 1))
Transition-IsSolvent {s = s} (replayed p k n e left b t) h =
    rw b (h.0, h.1, h.2, spend_replay-solvent p k s.budgets.replays e left h.3)

-- Along a chain that begins solvent every attempt is.
pub Linked-IsSolvent :
    (idempotent : Bool) (s : AttemptState) (l : List AttemptState)
    → Linked idempotent s l
    → IsSolvent s.budgets
    → All (λ t. IsSolvent t.budgets) l
Linked-IsSolvent idempotent s [] c h = tt
Linked-IsSolvent idempotent s (t ∷ l) c h =
    let g = Transition-IsSolvent c.0 h in (g, Linked-IsSolvent idempotent t l c.1 g)

-- The units of a budget that are left.
unfoldable pub replay_units : Replays → ℕ
replay_units [] = 0
replay_units ((name, n) ∷ r) = pos_part n + replay_units r

-- What an operation that is not idempotent may still spend.
unfoldable pub unsafe_units : AttemptBudgets → ℕ
unsafe_units b = pos_part b.redirect + replay_units b.replays

spend_replay-units :
    (policy : String) (n : ℤ) (r : Replays)
    → replays_left policy r ≡ some n
    → pos 1 ≤ℤ n
    → replay_units (spend_replay policy r) + 1 ≡ replay_units r
unfolding replays_left spend_replay replay_units
spend_replay-units policy n [] e h = cc
spend_replay-units policy n ((name, k) ∷ r) e h =
    ground (arith, -ℤ_parts k (pos 1), spend_replay-units policy n r)

Transition-unsafe :
    {s t : AttemptState}
    → Transition false s t
    → unsafe_units t.budgets + 1 ≤ unsafe_units s.budgets
unfolding unsafe_units
Transition-unsafe (retried n i left b t) = cc
Transition-unsafe (proposed n i b t) = cc
Transition-unsafe (refreshed n i left b t) = cc
Transition-unsafe {s = s} (redirected n left b r) =
    rw b (omega (arith, pos_part-pred s.budgets.redirect left))
Transition-unsafe {s = s} (replayed p k n e left b t) =
    rw b (omega (arith, spend_replay-units p k s.budgets.replays e left))

-- A repeat that is open to every operation: it follows a redirect and spends a unit of that budget,
-- or it answers a challenge, spends a unit of the policy's budget and goes to the same target.
pub data RedirectOrReplay (s t : AttemptState) : Type 0 where
  follows_redirect :
      pos 1 ≤ℤ s.budgets.redirect
      → t.budgets ≡ record s.budgets { redirect = s.budgets.redirect -ℤ pos 1 }
      → t.redirected ≡ true
      → RedirectOrReplay s t
  answers_challenge :
      (policy : String) (n : ℤ)
      → replays_left policy s.budgets.replays ≡ some n
      → pos 1 ≤ℤ n
      → t.budgets ≡ record s.budgets { replays = spend_replay policy s.budgets.replays }
      → SameTarget s t
      → RedirectOrReplay s t

-- Each attempt after the first follows from the one before it in a way that `Step` allows.
abbrev pub Follows :
    (AttemptState → AttemptState → Type 0) → AttemptState → List AttemptState → Type 0
Follows Step s [] = Unit
Follows Step s (t ∷ l) = Step s t × Follows Step t l

abbrev pub Consecutive : (AttemptState → AttemptState → Type 0) → List AttemptState → Type 0
Consecutive Step [] = Unit
Consecutive Step (s ∷ l) = Follows Step s l

Transition-RedirectOrReplay : {s t : AttemptState} → Transition false s t → RedirectOrReplay s t
Transition-RedirectOrReplay (retried n i left b t) = cc
Transition-RedirectOrReplay (proposed n i b t) = cc
Transition-RedirectOrReplay (refreshed n i left b t) = cc
Transition-RedirectOrReplay (redirected n left b r) = follows_redirect left b r
Transition-RedirectOrReplay (replayed p k n e left b t) = answers_challenge p k e left b t

Linked-Follows :
    (s : AttemptState) (l : List AttemptState) → Linked false s l → Follows RedirectOrReplay s l
Linked-Follows s [] c = tt
Linked-Follows s (t ∷ l) c = (Transition-RedirectOrReplay c.0, Linked-Follows t l c.1)

pub IsChain-Consecutive :
    (s : AttemptState) (l : List AttemptState) → IsChain false s l → Consecutive RedirectOrReplay l
IsChain-Consecutive s [] c = tt
IsChain-Consecutive s (t ∷ l) c = Linked-Follows t l (subst (λ u. Linked false u l) (sym c.0) c.1)

-- Where the operation is not idempotent only redirects and replays of challenges follow.
pub Linked-unsafe :
    (s : AttemptState) (l : List AttemptState)
    → Linked false s l
    → length l ≤ unsafe_units s.budgets
Linked-unsafe s [] c = omega arith
Linked-unsafe s (t ∷ l) c = omega (arith, Transition-unsafe c.0, Linked-unsafe t l c.1)

-- The same for the whole list.
pub IsChain-IsSolvent :
    (idempotent : Bool) (s : AttemptState) (l : List AttemptState)
    → IsChain idempotent s l
    → IsSolvent s.budgets
    → All (λ t. IsSolvent t.budgets) l
IsChain-IsSolvent idempotent s [] c h = tt
IsChain-IsSolvent idempotent s (t ∷ l) c h = (
  subst (λ (u : AttemptState). IsSolvent u.budgets) (sym c.0) h,
  Linked-IsSolvent idempotent s l c.1 h,
)

pub IsChain-unsafe :
    (s : AttemptState) (l : List AttemptState)
    → IsChain false s l
    → length l ≤ suc (unsafe_units s.budgets)
IsChain-unsafe s [] c = omega arith
IsChain-unsafe s (t ∷ l) c = omega (arith, Linked-unsafe s l c.1)
