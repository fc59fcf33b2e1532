-- ===== src/Http/Signals/Rivals.antt =====
-- How many signals match with one priority.
use eazy_sdk.Prelude.{
  ℕ, ◌≡◌, ◌+◌, refl, subst, Bool, true, false, ◌&&◌, Bool-cases, Option, none, some, List, [], ◌∷◌,
  ℤ, leb_ℤ, length, arith, inl, inr, if◌then◌else◌,
}
use eazy_sdk.Dict.{insert, sorted, filter, Mem}
use eazy_sdk.Http.Signals.{
  ParseAttempt, parsed_value, malformed, no_match, ResponseSignal, Match, applies, add_match,
  collect, same_priority, all_definitive,
}

length-filter-insert :
    {A : Type 0} (before : A → A → Bool) (test : A → Bool) (x : A) (l : List A)
    → length (filter test (insert before x l)) ≡ length (filter test (x ∷ l))
unfolding insert filter
length-filter-insert before test x [] = refl
length-filter-insert before test x (y ∷ l) = ground (arith, length-filter-insert before test x l)

pub length-filter-sorted :
    {A : Type 0} (before : A → A → Bool) (test : A → Bool) (l : List A)
    → length (filter test (sorted before l)) ≡ length (filter test l)
unfolding sorted filter
length-filter-sorted before test [] = refl
length-filter-sorted before test (x ∷ l) = ground (
  arith,
  length-filter-insert before test x (sorted before l),
  length-filter-sorted before test l,
)

module _ {S C V : Type 0} (scope : S) (c : C) where
  abbrev parses : ParseAttempt V → Bool
  parses (parsed_value v) = true
  parses _ = false

  -- How many of the signals are tried, parse the response and have the priority.
  abbrev pub rivals : ℤ → List (ResponseSignal S C V) → ℕ
  rivals priority [] = 0
  rivals priority (s ∷ ss) =
      (if applies scope c s
          && parses (s.try_parse c)
          && leb_ℤ priority s.priority
          && leb_ℤ s.priority priority
        then 1
        else 0)
      + rivals priority ss

  Counted : Match S C V → List (ResponseSignal S C V) → Option (List (Match S C V)) → Type 0
  Counted m ss none = Unit
  Counted m ss (some ms) = length (filter (same_priority m) ms) ≡ rivals m.0.priority ss

  add_match-Counted :
      (m : Match S C V) (s : ResponseSignal S C V) (ss : List (ResponseSignal S C V))
      (parse : ParseAttempt V) (r : Option (List (Match S C V)))
      → applies scope c s ≡ true
      → s.try_parse c ≡ parse
      → Counted m ss r
      → Counted m (s ∷ ss) (add_match s parse r)
  unfolding Counted add_match filter
  add_match-Counted m s ss (parsed_value v) none a e h = tt
  add_match-Counted m s ss (parsed_value v) (some ms) a e h = ground (arith, a, e, h)
  add_match-Counted m s ss (malformed cause) none a e h = ground (arith, a, e, h)
  add_match-Counted m s ss (malformed cause) (some ms) a e h = ground (arith, a, e, h)
  add_match-Counted m s ss no_match none a e h = tt
  add_match-Counted m s ss no_match (some ms) a e h = ground (arith, a, e, h)

  skip-Counted :
      (m : Match S C V) (s : ResponseSignal S C V) (ss : List (ResponseSignal S C V))
      (r : Option (List (Match S C V)))
      → applies scope c s ≡ false
      → Counted m ss r
      → Counted m (s ∷ ss) r
  unfolding Counted
  skip-Counted m s ss none a h = tt
  skip-Counted m s ss (some ms) a h = ground (arith, a, h)

  collect-Counted :
      (m : Match S C V) (ss : List (ResponseSignal S C V)) → Counted m ss (collect scope c ss)
  unfolding Counted collect filter
  collect-Counted m [] = refl
  collect-Counted m (s ∷ ss) = elim (Bool-cases (applies scope c s)) [
    | inl a ↦ subst (Counted m (s ∷ ss)) (ground arith) (
        add_match-Counted m s ss (s.try_parse c) (collect scope c ss) a refl (collect-Counted m ss))
    | inr a ↦
        subst (Counted m (s ∷ ss)) (ground arith)
          (skip-Counted m s ss (collect scope c ss) a (collect-Counted m ss))
  ]

  -- The collected matches with the priority of one of them are as many.
  pub length-collect :
      (m : Match S C V) (ss : List (ResponseSignal S C V)) (ms : List (Match S C V))
      → collect scope c ss ≡ some ms
      → length (filter (same_priority m) ms) ≡ rivals m.0.priority ss
  unfolding Counted
  length-collect m ss ms e = subst (Counted m ss) e (collect-Counted m ss)

  -- One of them is not definitive, unless all are.
  pub some_advisory :
      (ms : List (Match S C V))
      → all_definitive ms ≡ false
      → (b : Match S C V) × Mem b ms × (b.0.is_definitive ≡ false)
  unfolding all_definitive
  some_advisory [] h = absurd (ground (arith, h))
  some_advisory (m ∷ ms) h = elim (Bool-cases m.0.is_definitive) [
    | inl d ↦ let (b, i, q) = some_advisory ms (ground (arith, h, d)) in (b, inr i, q)
    | inr d ↦ (m, inl refl, d)
  ]
