-- ===== src/Http/Signals/Winner.antt =====
-- The match that wins has the highest priority.
use eazy_sdk.Prelude.{
  ℕ, ◌≡◌, ◌∙◌, ◌≤◌, ◌<◌, ◌⊎◌, false, refl, sym, subst, ◌↔◌, inl, inr, true, ◌&&◌, Bool-cases,
  Option-cases, Option, none, some, List, [], ◌∷◌, ◌≤ℤ◌, ltb, length, All, arith,
}
use eazy_sdk.Http.Signals.Rivals.{rivals, length-filter-sorted, length-collect, some_advisory}
use eazy_sdk.Dict.{Mem, insert, sorted, filter}
use eazy_sdk.Dict.Sort.{Mem-sorted, Mem-filter, All-insert}
use eazy_sdk.Http.Decide.{
  SignalOutcome, no_signal, malformed_signal, ambiguous_signal, signal_match,
}
use eazy_sdk.Http.Signals.{
  ParseAttempt, parsed_value, malformed, no_match, ResponseSignal, Match, applies, add_match,
  collect, priority_first, same_priority, all_definitive, pick, inspect_signals,
}

module _ {S C V : Type 0} (scope : S) (c : C) where
  -- A signal of the list that is tried and parses the response.
  abbrev pub Matched : List (ResponseSignal S C V) → Match S C V → Type 0
  Matched ss m = Mem m.0 ss × (applies scope c m.0 ≡ true) × (m.0.try_parse c ≡ parsed_value m.1)

  -- A definitive signal of the list that is tried and finds the response malformed.
  abbrev pub Broken : List (ResponseSignal S C V) → ResponseSignal S C V → Type 0
  Broken ss s =
      Mem s ss
      × (applies scope c s ≡ true)
      × (s.is_definitive ≡ true)
      × ((cause : ℕ) × (s.try_parse c ≡ malformed cause))

  Collected : List (ResponseSignal S C V) → Option (List (Match S C V)) → Type 0
  Collected ss none = (s : ResponseSignal S C V) × Broken ss s
  Collected ss (some ms) = (m : (Match S C V)) → Mem m ms ↔ Matched ss m

  -- A signal that adds no match and does not break.
  skip-Collected :
      (s : ResponseSignal S C V) (ss : List (ResponseSignal S C V))
      (r : Option (List (Match S C V)))
      → ((v : V) → applies scope c s ≡ true → s.try_parse c ≡ parsed_value v → ⊥)
      → Collected ss r
      → Collected (s ∷ ss) r
  unfolding Collected
  skip-Collected s ss none n (x, b) = (x, (inr b.0, b.1, b.2, b.3))
  skip-Collected s ss (some ms) n h = λ m. (
    λ i. let k = (h m).0 i in (inr k.0, k.1, k.2),
    λ (i, a, q). elim i [
      | inl e ↦ absurd (
          n m.1 (subst (λ z. applies scope c z ≡ true) e a)
            (subst (λ z. z.try_parse c ≡ parsed_value m.1) e q))
      | inr i' ↦ (h m).1 (i', a, q)
    ],
  )

  unbroken :
      (s : ResponseSignal S C V) (ss : List (ResponseSignal S C V)) (cause : ℕ)
      → applies scope c s ≡ true
      → s.is_definitive ≡ true
      → s.try_parse c ≡ malformed cause
      → Collected (s ∷ ss) none
  unfolding Collected
  unbroken s ss cause a d e = (s, (inl refl, a, d, (cause, e)))

  add_match-Collected :
      (s : ResponseSignal S C V) (ss : List (ResponseSignal S C V)) (parse : ParseAttempt V)
      (r : Option (List (Match S C V)))
      → applies scope c s ≡ true
      → s.try_parse c ≡ parse
      → Collected ss r
      → Collected (s ∷ ss) (add_match s parse r)
  unfolding Collected add_match
  add_match-Collected s ss (parsed_value v) none a e (x, b) = (x, (inr b.0, b.1, b.2, b.3))
  add_match-Collected s ss (parsed_value v) (some ms) a e h = λ m. (
    λ i. elim i [
      | inl q ↦ subst (Matched (s ∷ ss)) (sym q) (inl refl, a, e)
      | inr i' ↦ let k = (h m).0 i' in (inr k.0, k.1, k.2)
    ],
    λ (i, b, q). elim i [
      | inl w ↦
          let read : s.try_parse c ≡ parsed_value m.1 =
            subst (λ z. z.try_parse c ≡ parsed_value m.1) w q in
          let v' : m.1 ≡ v = ground (arith, read, e) in inl (ground (arith, w, v'))
      | inr i' ↦ inr ((h m).1 (i', b, q))
    ],
  )
  add_match-Collected s ss (malformed cause) r a e h = elim (Bool-cases s.is_definitive) [
    | inl d ↦
        let outcome : none ≡ add_match s (malformed cause) r = ground (arith, d) in
        subst (Collected (s ∷ ss)) outcome (unbroken s ss cause a d e)
    | inr d ↦
        subst (Collected (s ∷ ss)) (ground arith)
          (skip-Collected s ss r (λ v b q. ground (arith, q, e)) h)
  ]
  add_match-Collected s ss no_match r a e h =
      skip-Collected s ss r (λ v b q. ground (arith, q, e)) h

  collect-Collected : (ss : List (ResponseSignal S C V)) → Collected ss (collect scope c ss)
  unfolding Collected collect
  collect-Collected [] = λ m. (λ h. elim h [ ], λ h. elim h.0 [ ])
  collect-Collected (s ∷ ss) = elim (Bool-cases (applies scope c s)) [
    | inl a ↦ subst (Collected (s ∷ ss)) (ground arith) (
        add_match-Collected s ss (s.try_parse c) (collect scope c ss) a refl (collect-Collected ss))
    | inr a ↦ subst (Collected (s ∷ ss)) (ground arith) (
        skip-Collected s ss (collect scope c ss) (λ v b q. ground (arith, a, b))
          (collect-Collected ss))
  ]

  -- No match of the list has a higher priority.
  abbrev Below : Match S C V → List (Match S C V) → Type 0
  Below m ms = All (λ (b : Match S C V). b.0.priority ≤ℤ m.0.priority) ms

  abbrev Descending : List (Match S C V) → Type 0
  Descending [] = Unit
  Descending (m ∷ ms) = Below m ms × Descending ms

  Below-trans :
      (m n : Match S C V) (ms : List (Match S C V))
      → m.0.priority ≤ℤ n.0.priority
      → Below m ms
      → Below n ms
  Below-trans m n [] le h = tt
  Below-trans m n (b ∷ ms) le h = (omega (arith, le, h.0), Below-trans m n ms le h.1)

  insert-Descending :
      (m : Match S C V) (ms : List (Match S C V))
      → Descending ms
      → Descending (insert priority_first m ms)
  unfolding insert
  insert-Descending m [] h = (tt, tt)
  insert-Descending m (b ∷ ms) h = elim (Bool-cases (priority_first m b)) [
    | inl e ↦
        let le : b.0.priority ≤ℤ m.0.priority = ground (arith, e) in
        ground (arith, le, Below-trans b m ms le h.0, h)
    | inr e ↦
        let le : m.0.priority ≤ℤ b.0.priority = ground (arith, e) in
        ground (
          arith,
          All-insert priority_first (λ (x : Match S C V). x.0.priority ≤ℤ b.0.priority) m ms le h.0,
          insert-Descending m ms h.1,
        )
  ]

  sorted-Descending : (ms : List (Match S C V)) → Descending (sorted priority_first ms)
  unfolding sorted
  sorted-Descending [] = tt
  sorted-Descending (m ∷ ms) = insert-Descending m (sorted priority_first ms) (sorted-Descending ms)

  Below-Mem :
      (m b : Match S C V) (ms : List (Match S C V))
      → Below m ms
      → Mem b (m ∷ ms)
      → b.0.priority ≤ℤ m.0.priority
  Below-Mem m b ms h (inl e) = subst (λ z. b.0.priority ≤ℤ z.0.priority) e (omega arith)
  Below-Mem m b [] h (inr i) = elim i [ ]
  Below-Mem m b (x ∷ ms) h (inr (inl e)) = subst (λ z. z.0.priority ≤ℤ m.0.priority) (sym e) h.0
  Below-Mem m b (x ∷ ms) h (inr (inr i)) = Below-Mem m b ms h.1 (inr i)

  all_definitive-Mem :
      (b : Match S C V) (ms : List (Match S C V))
      → all_definitive ms ≡ true
      → Mem b ms
      → b.0.is_definitive ≡ true
  unfolding all_definitive
  all_definitive-Mem b [] h i = elim i [ ]
  all_definitive-Mem b (m ∷ ms) h (inl e) =
      subst (λ z. z.0.is_definitive ≡ true) (sym e) (ground (arith, h))
  all_definitive-Mem b (m ∷ ms) h (inr i) = all_definitive-Mem b ms (ground (arith, h)) i

  abbrev Highest : List (ResponseSignal S C V) → Match S C V → Type 0
  Highest ss m = Matched ss m × ((b : Match S C V) → Matched ss b → b.0.priority ≤ℤ m.0.priority)

  -- What each outcome says of the signals.
  abbrev pub Ensures : List (ResponseSignal S C V) → SignalOutcome (Match S C V) → Type 0
  Ensures ss no_signal = (m : Match S C V) → Matched ss m → ⊥
  Ensures ss malformed_signal = (s : ResponseSignal S C V) × Broken ss s
  Ensures ss (signal_match m) =
      Highest ss m
      × ((rivals scope c m.0.priority ss ≤ 1)
          ⊎ ((b : Match S C V) × Matched ss b
              × (b.0.priority ≡ m.0.priority)
              × (b.0.is_definitive ≡ false)))
  Ensures ss ambiguous_signal =
      (m : Match S C V) × Highest ss m
      × (1 < rivals scope c m.0.priority ss)
      × ((b : Match S C V) → Matched ss b → m.0.priority ≤ℤ b.0.priority → b.0.is_definitive ≡ true)

  same_of :
      (m b : Match S C V)
      → m.0.priority ≤ℤ b.0.priority
      → b.0.priority ≤ℤ m.0.priority
      → same_priority m b ≡ true
  same_of m b p q = ground (arith, p, q)

  pick-Ensures :
      (ss : List (ResponseSignal S C V)) (ms : List (Match S C V))
      → ((m : Match S C V) → Mem m ms ↔ Matched ss m)
      → ((m : Match S C V) → length (filter (same_priority m) ms) ≡ rivals scope c m.0.priority ss)
      → Descending ms
      → Ensures ss (pick ms)
  unfolding pick
  pick-Ensures ss [] h n d = λ m k. (h m).1 k
  pick-Ensures ss (m ∷ ms) h n d =
      let winners = filter (same_priority m) (m ∷ ms) in
      let best : Highest ss m = ((h m).0 (inl refl), λ b k. Below-Mem m b ms d.0 ((h b).1 k)) in
      elim (Bool-cases (ltb 1 (length winners) && all_definitive winners)) [
        | inl w ↦
            let definite : all_definitive winners ≡ true = ground (arith, w) in
            let outcome : ambiguous_signal ≡ pick (m ∷ ms) = ground (arith, w) in
            subst (Ensures ss) outcome (
              m,
              best,
              ground (arith, w, n m),
              (λ b k le. all_definitive-Mem b winners definite (
                  (Mem-filter (same_priority m) b (m ∷ ms)).1
                    ((h b).1 k, same_of m b le (best.1 b k)))),
            )
        | inr w ↦
            let outcome : signal_match m ≡ pick (m ∷ ms) = ground (arith, w) in
            subst (Ensures ss) outcome (
              best,
              elim (Bool-cases (all_definitive winners)) [
                | inl all ↦ inl (ground (arith, w, all, n m))
                | inr advisory ↦
                    let (b, i, q) = some_advisory scope c winners advisory in
                    let (j, same) = (Mem-filter (same_priority m) b (m ∷ ms)).0 i in
                    inr (b, (h b).0 j, ground (arith, same), q)
              ],
            )
      ]

  -- What `_inspect_signals` returns, over all lists of signals: a match is one that a tried signal
  -- parsed, with the highest priority of those, and either no other signal matches with this
  -- priority or one that does is not definitive; an ambiguous challenge has several matches of the
  -- highest priority, and all of that priority are definitive; a malformed one is one that a tried
  -- definitive signal could not read; and there is none only if no tried signal parses the response.
  pub inspect_signals-Ensures :
      (ss : List (ResponseSignal S C V)) → Ensures ss (inspect_signals scope c ss)
  unfolding inspect_signals Collected
  inspect_signals-Ensures ss =
      let all = collect-Collected ss in
      elim (Option-cases (collect scope c ss)) [
        | inl n ↦
            let outcome : malformed_signal ≡ inspect_signals scope c ss = ground (arith, n) in
            subst (Ensures ss) outcome (subst (Collected ss) n all)
        | inr (ms, e) ↦
            let found = subst (Collected ss) e all in
            let outcome : pick (sorted priority_first ms) ≡ inspect_signals scope c ss =
              ground (arith, e) in
            subst (Ensures ss) outcome (
              pick-Ensures ss (sorted priority_first ms)
                (λ m.
                  let s = Mem-sorted priority_first m ms in
                  (λ i. (found m).0 (s.0 i), λ k. s.1 ((found m).1 k)))
                (λ m.
                  length-filter-sorted priority_first (same_priority m) ms
                  ∙ length-collect scope c m ss ms e)
                (sorted-Descending ms))
      ]
