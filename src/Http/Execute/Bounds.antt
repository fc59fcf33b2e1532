-- ===== src/Http/Execute/Bounds.antt =====
-- The attempts of a call: how they follow one another, how many there are, and that the loop ends.
use eazy_sdk.Prelude.{
  ℕ, zero, suc, ◌+◌, ◌-◌, ◌≤◌, ◌<◌, String, ◌≡◌, ◌≢◌, refl, subst, All, true, false, Bool-cases,
  inl, inr, Option, none, some, [], length, pos, pos_part, leb_ℤ, arith,
}
use eazy_sdk.Http.Failure.{attempt_limit, Result, ok, err}
use eazy_sdk.Http.Attempts.{AttemptBudgets, AttemptState, initial}
use eazy_sdk.Http.Attempts.Chain.{
  IsChain, Linked-cons, Advances, Transition-Advances, IsSolvent, unsafe_units, IsChain-IsSolvent,
  RedirectOrReplay, Consecutive, IsChain-Consecutive, IsChain-unsafe,
}
use eazy_sdk.Http.Attempts.Transition.{Transition}
use eazy_sdk.Http.Exec.{OnOk}
use eazy_sdk.Http.Execute.{Runtime}
use eazy_sdk.Http.Execute.Run.{
  Round, settled, again, Trace, round, started, proceed, loop, launch, execute,
}
use eazy_sdk.Http.Execute.Steps.{Next, round-Next}

advance_fuel :
    {fuel : ℕ} (s t : AttemptState)
    → leb_ℤ (pos s.number) s.budgets.hard_limit ≡ true
    → Advances s t
    → pos_part s.budgets.hard_limit + 1 - s.number < suc fuel
    → pos_part t.budgets.hard_limit + 1 - t.number < fuel
advance_fuel s t go a h = ground arith

module _ {W P M T : Type 0} (rt : Runtime W P M T) where
  proceed-IsChain :
      (s : AttemptState) (p : Result (Round T) × W) (k : AttemptState → W → Trace W T)
      → OnOk (Next rt s) p.0
      → ((t : AttemptState) (w : W) → IsChain rt.is_idempotent t (k t w).attempts)
      → IsChain rt.is_idempotent s (proceed rt s p k).attempts
  unfolding proceed
  proceed-IsChain s (err e, w) k h ih = (refl, tt)
  proceed-IsChain s (ok (settled v), w) k h ih = (refl, tt)
  proceed-IsChain s (ok (again t), w) k h ih = (refl, Linked-cons (k t w).attempts h (ih t w))

  loop_go :
      (fuel : ℕ) (s : AttemptState) (w : W)
      → leb_ℤ (pos s.number) s.budgets.hard_limit ≡ true
      → loop rt (suc fuel) s w ≡ proceed rt s (round rt s w) (loop rt fuel)
  unfolding loop
  loop_go fuel s w h = rw (h, loop)

  loop_done :
      (fuel : ℕ) (s : AttemptState) (w : W)
      → leb_ℤ (pos s.number) s.budgets.hard_limit ≡ false
      → loop rt (suc fuel) s w
        ≡ record { result = some (err attempt_limit); world = w; attempts = [] }
  unfolding loop
  loop_done fuel s w h = rw (h, loop)

  -- The attempts of the loop are a chain of allowed transitions from its state.
  pub loop-IsChain :
      (fuel : ℕ) (s : AttemptState) (w : W) → IsChain rt.is_idempotent s (loop rt fuel s w).attempts
  loop-IsChain zero s w = unfold loop in tt
  loop-IsChain (suc fuel) s w = elim (Bool-cases (leb_ℤ (pos s.number) s.budgets.hard_limit)) [
    | inl go ↦ rw (loop_go fuel s w go) (
        proceed-IsChain s (round rt s w) (loop rt fuel) ((round-Next rt s).at w)
          (loop-IsChain fuel))
    | inr done ↦ rw (loop_done fuel s w done) tt
  ]

  proceed-length :
      (s : AttemptState) (p : Result (Round T) × W) (k : AttemptState → W → Trace W T) (limit : ℕ)
      → OnOk (Next rt s) p.0
      → s.number ≤ limit
      → limit ≡ pos_part s.budgets.hard_limit
      → ((t : AttemptState) (w : W)
          → length (k t w).attempts ≤ pos_part t.budgets.hard_limit + 1 - t.number)
      → length (proceed rt s p k).attempts ≤ limit + 1 - s.number
  unfolding proceed
  proceed-length s (err e, w) k limit h g e' ih = omega arith
  proceed-length s (ok (settled v), w) k limit h g e' ih = omega arith
  proceed-length s (ok (again t), w) k limit h g e' ih =
      let a = Transition-Advances h in ground (arith, ih t w, a.number, a.hard_limit)

  -- The loop starts no more attempts than the limit has left.
  pub loop-length :
      (fuel : ℕ) (s : AttemptState) (w : W)
      → length (loop rt fuel s w).attempts ≤ pos_part s.budgets.hard_limit + 1 - s.number
  loop-length zero s w = unfold loop in omega arith
  loop-length (suc fuel) s w = elim (Bool-cases (leb_ℤ (pos s.number) s.budgets.hard_limit)) [
    | inl go ↦ rw (loop_go fuel s w go) (
        proceed-length s (round rt s w) (loop rt fuel) _ ((round-Next rt s).at w) (ground arith)
          refl (loop-length fuel))
    | inr done ↦ rw (loop_done fuel s w done) (omega arith)
  ]

  proceed-total :
      (s : AttemptState) (p : Result (Round T) × W) (k : AttemptState → W → Trace W T)
      → OnOk (Next rt s) p.0
      → ((t : AttemptState) (w : W) → Transition rt.is_idempotent s t → (k t w).result ≢ none)
      → (proceed rt s p k).result ≢ none
  unfolding proceed started
  proceed-total s (err e, w) k h ih = λ x. cc
  proceed-total s (ok (settled v), w) k h ih = λ x. cc
  proceed-total s (ok (again t), w) k h ih = ih t w h

  -- With fuel for the attempts that the limit has left, and one round to notice the end, the loop
  -- comes to a result.
  pub loop-total :
      (fuel : ℕ) (s : AttemptState) (w : W)
      → pos_part s.budgets.hard_limit + 1 - s.number < fuel
      → (loop rt fuel s w).result ≢ none
  loop-total zero s w h = elim h [ ]
  loop-total (suc fuel) s w h = elim (Bool-cases (leb_ℤ (pos s.number) s.budgets.hard_limit)) [
    | inl go ↦ rw (loop_go fuel s w go) (
        proceed-total s (round rt s w) (loop rt fuel) ((round-Next rt s).at w)
          λ t w' m. loop-total fuel t w' (advance_fuel s t go (Transition-Advances m) h))
    | inr done ↦ rw (loop_done fuel s w done) (λ x. cc)
  ]

  launch-IsChain :
      (fuel : ℕ) (url : String) (b : AttemptBudgets) (p : Result (Option String) × W)
      → (c : Option String) × IsChain rt.is_idempotent
          (initial url b c)
          (launch rt fuel url b p).attempts
  unfolding launch
  launch-IsChain fuel url b (err e, w) = (none, tt)
  launch-IsChain fuel url b (ok c, w) = (c, loop-IsChain fuel (initial url b c) w)

  launch-total :
      (fuel : ℕ) (url : String) (b : AttemptBudgets) (p : Result (Option String) × W)
      → pos_part b.hard_limit < fuel
      → (launch rt fuel url b p).result ≢ none
  unfolding launch initial
  launch-total fuel url b (err e, w) h = λ x. cc
  launch-total fuel url b (ok c, w) h = loop-total fuel (initial url b c) w (omega arith)

  launch-length :
      (fuel : ℕ) (url : String) (b : AttemptBudgets) (p : Result (Option String) × W)
      → length (launch rt fuel url b p).attempts ≤ pos_part b.hard_limit
  unfolding launch initial
  launch-length fuel url b (err e, w) = omega arith
  launch-length fuel url b (ok c, w) = omega (arith, loop-length fuel (initial url b c) w)

module _ {W P M T : Type 0} (rt : Runtime W P M T) (fuel : ℕ) (url : String) (b : AttemptBudgets)
    (w : W) where
  -- Whatever the handler, the hooks, the solvers and the sessions do, the attempts of a call are
  -- the initial one, with some correlation, and then allowed transitions from each to the next.
  pub execute-IsChain :
      (c : Option String) × IsChain rt.is_idempotent
        (initial url b c)
        (execute rt fuel url b w).attempts
  unfolding execute
  execute-IsChain = launch-IsChain rt fuel url b (rt.new_correlation w)

  -- With more fuel than the hard limit a call comes to a result or an exception.
  pub execute-total : pos_part b.hard_limit < fuel → (execute rt fuel url b w).result ≢ none
  unfolding execute
  execute-total = launch-total rt fuel url b (rt.new_correlation w)

  -- A call starts at most as many attempts as its hard limit.
  pub execute-length : length (execute rt fuel url b w).attempts ≤ pos_part b.hard_limit
  unfolding execute
  execute-length = launch-length rt fuel url b (rt.new_correlation w)

  -- If no budget is negative when a call begins, none is negative at any of its attempts.
  pub execute-IsSolvent :
      IsSolvent b → All (λ t. IsSolvent t.budgets) (execute rt fuel url b w).attempts
  unfolding initial
  execute-IsSolvent h =
      let (c, chain) = execute-IsChain in
      IsChain-IsSolvent rt.is_idempotent (initial url b c) _ chain h

  -- In a call of an operation that is not idempotent each attempt after the first follows a
  -- redirect or answers a challenge, and spends a unit of that budget: none is a transport retry, a
  -- refresh or the proposal of a hook. So there is at most one attempt more than these units.
  pub execute-unsafe :
      rt.is_idempotent ≡ false
      → Consecutive RedirectOrReplay (execute rt fuel url b w).attempts
        × (length (execute rt fuel url b w).attempts ≤ suc (unsafe_units b))
  unfolding initial
  execute-unsafe e =
      let (c, chain) = execute-IsChain in
      let unsafe =
        subst (λ i. IsChain i (initial url b c) (execute rt fuel url b w).attempts) e chain in
      (
        IsChain-Consecutive (initial url b c) (execute rt fuel url b w).attempts unsafe,
        IsChain-unsafe (initial url b c) (execute rt fuel url b w).attempts unsafe,
      )
