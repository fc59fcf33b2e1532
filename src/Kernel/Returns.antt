-- ===== src/Kernel/Returns.antt =====
-- When `from_bound` returns.
use eazy_sdk.Prelude.{
  ℕ, zero, suc, ◌≡◌, ◌≢◌, ◌⊎◌, refl, ◌∙◌, subst, true, false, Option, none, some, List, [], ◌∷◌,
  elem, get_elem?, All, length, set, replicate, inl, inr, arith, Bool-cases, length-replicate,
}
use eazy_sdk.Prelude.Outcome.{ok}
use eazy_sdk.Dict.{Mem}
use eazy_sdk.Dict.Every.{All_at}
use eazy_sdk.Kernel.Values.{
  ValueSlot, Bind, OperationValues, Stored, check_shape, check_required, bind_all, from_bound,
  stored_of, index, operation_values,
}
use eazy_sdk.Kernel.Bound.{bind_all-Holds, index-same, index-identity, bind_all-length}
use eazy_sdk.Kernel.Present.{check_shape-fresh}

-- Two bindings of one call name two slots.
abbrev pub DistinctSlots : {V : Type 0} → List (Bind V) → Type 0
DistinctSlots [] = Unit
DistinctSlots (b ∷ bs) =
    All (λ (other : Bind _). b.slot.identity ≢ other.slot.identity) bs × DistinctSlots bs

module _ {V : Type 0} (items : V → Option (List V)) (slots : List (ValueSlot V)) where
  -- The slot of a binding is in the shape, and takes the value.
  abbrev pub Fits : Bind V → Type 0
  Fits b =
      ((i : ℕ) × (index slots b.slot ≡ some i))
      × ((stored : Stored V) × (stored_of items b ≡ ok stored))

  -- The places of the bindings are free.
  abbrev Free : List ℕ → List (Bind V) → Type 0
  Free occupied bs =
      All (λ (b : Bind V). (i : ℕ) → index slots b.slot ≡ some i → elem i occupied ≡ false) bs

  Free-cons :
      (b : Bind V) (i : ℕ) (occupied : List ℕ) (bs : List (Bind V))
      → index slots b.slot ≡ some i
      → All (λ (other : Bind V). b.slot.identity ≢ other.slot.identity) bs
      → Free occupied bs
      → Free (i ∷ occupied) bs
  Free-cons b i occupied [] found d f = tt
  Free-cons b i occupied (other ∷ bs) found d f = (
    λ j e.
        let apart : i ≡ j → ⊥ = λ q. d.0 (
          index-identity slots b.slot other.slot j
            (subst (λ z. index slots b.slot ≡ some z) q found) e) in
        ground (arith, f.0 j e, apart),
    Free-cons b i occupied bs found d.1 f.1,
  )

  Free-nil : (bs : List (Bind V)) → Free [] bs
  Free-nil [] = tt
  Free-nil (b ∷ bs) = (λ i e. refl, Free-nil bs)

  bind_all-returns :
      (cells : List (Option (Stored V))) (occupied : List ℕ) (bs : List (Bind V))
      → All Fits bs
      → DistinctSlots bs
      → Free occupied bs
      → (out : List (Option (Stored V))) × (bind_all items slots cells occupied bs ≡ ok out)
  unfolding bind_all
  bind_all-returns cells occupied [] fits d f = (cells, refl)
  bind_all-returns cells occupied (b ∷ bs) fits d f =
      let i = fits.0.0 in
      let stored = fits.0.1 in
      let rest =
        bind_all-returns (set cells i.0 (some stored.0)) (i.0 ∷ occupied) bs fits.1 d.1
          (Free-cons b i.0 occupied bs i.1 d.0 f.1) in
      (rest.0, ground (arith, i.1, stored.1, f.0 i.0 i.1, rest.1))

get_elem?-Mem : {A : Type 0} (l : List A) (i : ℕ) (a : A) → get_elem? l i ≡ some a → Mem a l
get_elem?-Mem [] i a h = absurd (ground (arith, h))
get_elem?-Mem (x ∷ l) zero a h = inl (ground (arith, h))
get_elem?-Mem (x ∷ l) (suc i) a h = inr (get_elem?-Mem l i a h)

module _ {V : Type 0} where
  -- Every required slot of the list has a value at its place.
  check_required-returns :
      (slots : List (ValueSlot V)) (cells : List (Option (Stored V)))
      → length cells ≡ length slots
      → ((i : ℕ) (s : ValueSlot V)
          → get_elem? slots i ≡ some s
          → s.required ≡ true
          → (stored : Stored V) × (get_elem? cells i ≡ some (some stored)))
      → check_required slots cells ≡ ok tt
  unfolding check_required
  check_required-returns [] cells l h = refl
  check_required-returns (s ∷ slots) [] l h = absurd (omega (arith, l))
  check_required-returns (s ∷ slots) (c ∷ cells) l h =
      let ih = check_required-returns slots cells (omega (arith, l)) λ i x e r. h (suc i) x e r in
      elim (Bool-cases s.required) [
        | inr r ↦ ground (arith, r, ih)
        | inl r ↦ ground (arith, r, ih, (h 0 s refl r).1)
      ]

  index_at :
      (seen : List ℕ) (slots : List (ValueSlot V)) (s : ValueSlot V) (i : ℕ)
      → check_shape seen slots ≡ ok tt
      → get_elem? slots i ≡ some s
      → index slots s ≡ some i
  unfolding check_shape index
  index_at seen [] s i shape e = absurd (ground (arith, e))
  index_at seen (x ∷ slots) s zero shape e = ground (arith, e)
  index_at seen (x ∷ slots) s (suc i) shape e = elim (Bool-cases (elem x.identity seen)) [
    | inl m ↦ absurd (ground (arith, shape, m))
    | inr m ↦
        let more : check_shape (x.identity ∷ seen) slots ≡ ok tt = ground (arith, shape, m) in
        let ih = index_at (x.identity ∷ seen) slots s i more e in
        let apart =
          check_shape-fresh (x.identity ∷ seen) slots s more (get_elem?-Mem slots i s e) in
        ground (arith, ih, apart)
  ]

-- The slot is not required, or has a binding.
abbrev pub Covered : {V : Type 0} → List (Bind V) → ValueSlot V → Type 0
Covered {V = W} bs s =
    (s.required ≡ false) ⊎ ((b : Bind W) × Mem b bs × (b.slot.identity ≡ s.identity))

module _ {V : Type 0} (items : V → Option (List V)) (slots : List (ValueSlot V)) where
  -- `from_bound` returns when the shape names no slot twice, no two bindings are of one slot, every
  -- binding is of a slot of the shape which takes its value, and every required slot has a binding.
  pub from_bound-returns :
      (bs : List (Bind V))
      → check_shape [] slots ≡ ok tt
      → DistinctSlots bs
      → All (Fits items slots) bs
      → All (Covered bs) slots
      → (values : OperationValues V) × (from_bound items slots bs ≡ ok values)
  unfolding from_bound operation_values
  from_bound-returns bs shape d fits r =
      let run =
        bind_all-returns items slots (replicate (length slots) none) [] bs fits d
          (Free-nil items slots bs) in
      let long =
        bind_all-length items slots (replicate (length slots) none) run.0 [] bs run.1
        ∙ length-replicate (length slots) none in
      let required = check_required-returns slots run.0 long λ i s e q.
        elim (All_at (Covered bs) slots s r (get_elem?-Mem slots i s e)) [
          | inl n ↦ absurd (ground (arith, n, q))
          | inr (b, m, same) ↦
              let there =
                bind_all-Holds items slots (replicate (length slots) none) run.0 [] bs b run.1
                  (length-replicate (length slots) none) m in
              let place : there.place ≡ i = ground (
                arith,
                there.found,
                index-same slots b.slot s same,
                index_at [] slots s i shape e,
              ) in
              (
                there.stored,
                subst (λ z. get_elem? run.0 z ≡ some (some there.stored)) place there.held,
              )
        ] in
      (record { slots = slots; cells = run.0 }, ground (arith, run.1, required, long))
