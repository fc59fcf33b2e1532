-- ===== src/Http/Signals.antt =====
-- `_inspect_signals` of eazy_sdk/protection/advanced.py: which challenge a response is. Scopes,
-- prefilters and parsers are functions of a signal.
pub mod Rivals
pub mod Winner
use eazy_sdk.Prelude.{
  ℕ, Bool, true, false, not, ◌&&◌, Option, none, some, List, [], ◌∷◌, ℤ, leb_ℤ, ltb, length,
  if◌then◌else◌,
}
use eazy_sdk.Dict.{sorted, filter}
use eazy_sdk.Http.Decide.{
  SignalOutcome, no_signal, malformed_signal, ambiguous_signal, signal_match,
}

-- `ParsedValue`, `Malformed` with its cause, or `NoMatch`.
pub data ParseAttempt (V : Type 0) : Type 0 where
  parsed_value : V → ParseAttempt V
  malformed : ℕ → ParseAttempt V
  no_match : ParseAttempt V

-- A `ResponseSignal`, over the scope of an operation and the context of a response.
pub record ResponseSignal (S C V : Type 0) : Type 0 where
  pub in_scope : S → Bool
  pub prefilter : Option (C → Bool)
  pub try_parse : C → ParseAttempt V
  pub priority : ℤ
  pub is_definitive : Bool

-- `SignalMatch`
abbrev pub Match : Type 0 → Type 0 → Type 0 → Type 0
Match S C V = ResponseSignal S C V × V

unfoldable pub passes : {C : Type 0} → Option (C → Bool) → C → Bool
passes none c = true
passes (some test) c = test c

module _ {S C V : Type 0} where
  -- The signal is tried.
  unfoldable pub applies : S → C → ResponseSignal S C V → Bool
  unfolding passes
  applies scope c s = s.in_scope scope && passes s.prefilter c

  -- What one signal adds to the matches of those behind it.
  unfoldable pub add_match :
      ResponseSignal S C V
      → ParseAttempt V
      → Option (List (Match S C V))
      → Option (List (Match S C V))
  add_match s (parsed_value v) none = none
  add_match s (parsed_value v) (some ms) = some ((s, v) ∷ ms)
  add_match s (malformed cause) rest = if s.is_definitive then none else rest
  add_match s no_match rest = rest

  -- The loop: `none` where a definitive signal is malformed.
  unfoldable pub collect : S → C → List (ResponseSignal S C V) → Option (List (Match S C V))
  unfolding applies
  collect scope c [] = some []
  collect scope c (s ∷ ss) =
      let rest = collect scope c ss in
      if applies scope c s then add_match s (s.try_parse c) rest else rest

  abbrev pub priority_first : (Match S C V) → (Match S C V) → Bool
  priority_first b a = leb_ℤ a.0.priority b.0.priority

  abbrev pub same_priority : (Match S C V) → (Match S C V) → Bool
  same_priority a b = leb_ℤ a.0.priority b.0.priority && leb_ℤ b.0.priority a.0.priority

  unfoldable pub all_definitive : List (Match S C V) → Bool
  all_definitive [] = true
  all_definitive (m ∷ ms) = m.0.is_definitive && all_definitive ms

  -- The winners are the matches with the priority of the first, which is one of them.
  unfoldable pub pick : List (Match S C V) → SignalOutcome (Match S C V)
  unfolding all_definitive filter
  pick [] = no_signal
  pick (m ∷ ms) =
      let winners = filter (same_priority m) (m ∷ ms) in
      if ltb 1 (length winners) && all_definitive winners then ambiguous_signal else signal_match m

  -- `_inspect_signals`
  unfoldable pub inspect_signals : S → C → List (ResponseSignal S C V) → SignalOutcome (Match S C V)
  unfolding sorted
  inspect_signals scope c ss = elim (collect scope c ss) [
    | none ↦ malformed_signal
    | some ms ↦ pick (sorted priority_first ms)
  ]
