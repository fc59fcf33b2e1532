-- ===== src/Kernel/Present.antt =====
-- Which slots have a value after `from_bound`, and when it returns.
use eazy_sdk.Prelude.{
  get_elem?-replicate, ℕ, suc, zero, ◌≡◌, ◌≢◌, ◌⊎◌, refl, sym, ◌∙◌, subst, true, false, Option,
  none, some, List, [], ◌∷◌, ◌==◌, elem, get_elem?, is_some, All, length, replicate, inl, inr,
  arith, Bool-cases, Option-cases, length-replicate,
}
use eazy_sdk.Prelude.Outcome.{ok, Outcome-cases}
use eazy_sdk.Dict.Every.{All-of}
use eazy_sdk.Dict.{Mem}
use eazy_sdk.Kernel.Values.{
  ValueSlot, Bind, OperationValues, Stored, check_shape, check_required, from_bound, cell, index,
  contains,
}
use eazy_sdk.Kernel.Bound.{
  from_bound-inv, bind_all-Holds, bind_all-unbound, index-lt, index-identity, index-same,
}

module _ {V : Type 0} where
  pub check_shape-fresh :
      (seen : List ℕ) (slots : List (ValueSlot V)) (s : ValueSlot V)
      → check_shape seen slots ≡ ok tt
      → Mem s slots
      → elem s.identity seen ≡ false
  unfolding check_shape
  check_shape-fresh seen [] s h m = elim m [ ]
  check_shape-fresh seen (x ∷ slots) s h m = elim (Bool-cases (elem x.identity seen)) [
    | inl e ↦ absurd (ground (arith, h, e))
    | inr e ↦
        let more : check_shape (x.identity ∷ seen) slots ≡ ok tt = ground (arith, h, e) in
        elim m [
          | inl q ↦ subst (λ (z : ValueSlot V). elem z.identity seen ≡ false) (sym q) e
          | inr later ↦ ground (arith, check_shape-fresh (x.identity ∷ seen) slots s more later)
        ]
  ]

  -- A slot of a shape is found where it stands.
  pub place_of :
      (seen : List ℕ) (slots : List (ValueSlot V)) (s : ValueSlot V)
      → check_shape seen slots ≡ ok tt
      → Mem s slots
      → (i : ℕ) × (index slots s ≡ some i) × (get_elem? slots i ≡ some s)
  unfolding check_shape index
  place_of seen [] s h m = elim m [ ]
  place_of seen (x ∷ slots) s h m = elim (Bool-cases (elem x.identity seen)) [
    | inl e ↦ absurd (ground (arith, h, e))
    | inr e ↦
        let more : check_shape (x.identity ∷ seen) slots ≡ ok tt = ground (arith, h, e) in
        elim m [
          | inl q ↦
              subst
                (λ (z : ValueSlot V).
                  (i : ℕ) × (index (x ∷ slots) z ≡ some i) × (get_elem? (x ∷ slots) i ≡ some z))
                (sym q) (0, ground arith, refl)
          | inr later ↦
              let there = place_of (x.identity ∷ seen) slots s more later in
              let apart = check_shape-fresh (x.identity ∷ seen) slots s more later in
              (suc there.0, ground (arith, there.1, apart), there.2)
        ]
  ]

  check_required-at :
      (slots : List (ValueSlot V)) (cells : List (Option (Stored V))) (i : ℕ) (s : ValueSlot V)
      → check_required slots cells ≡ ok tt
      → get_elem? slots i ≡ some s
      → get_elem? cells i ≡ some none
      → s.required ≡ false
  unfolding check_required
  check_required-at [] cells i s h p q = absurd (ground (arith, p))
  check_required-at (x ∷ slots) [] i s h p q = absurd (ground (arith, q))
  check_required-at (x ∷ slots) (c ∷ cells) zero s h p q = elim (Bool-cases s.required) [
    | inl r ↦ absurd (ground (arith, h, p, q, r))
    | inr r ↦ r
  ]
  check_required-at (x ∷ slots) (c ∷ cells) (suc i) s h p q =
      elim (Outcome-cases (check_required slots cells)) [
        | inr e ↦ absurd (ground (arith, h, e.1))
        | inl d ↦ check_required-at slots cells i s (ground (arith, d.1)) p q
      ]

  -- Some binding names the place, or none does.
  bound_or_not :
      (slots : List (ValueSlot V)) (bs : List (Bind V)) (j : ℕ)
      → ((b : Bind V) × Mem b bs × (index slots b.slot ≡ some j))
        ⊎ ((b : Bind V) → Mem b bs → index slots b.slot ≡ some j → ⊥)
  bound_or_not slots [] j = inr (λ b m. elim m [ ])
  bound_or_not slots (b ∷ bs) j = elim (bound_or_not slots bs j) [
    | inl there ↦ inl (there.0, inr there.1, there.2)
    | inr no_other ↦
        let later : (index slots b.slot ≡ some j → ⊥)
            → (b' : Bind V) → Mem b' (b ∷ bs)
            → index slots b'.slot ≡ some j
            → ⊥ =
          λ n b' m e. elim m [
            | inl q ↦ n (subst (λ (z : Bind V). index slots z.slot ≡ some j) q e)
            | inr m' ↦ no_other b' m' e
          ] in
        elim (Option-cases (index slots b.slot)) [
          | inl n ↦ inr (later (λ e. ground (arith, n, e)))
          | inr i ↦ elim (Bool-cases (i.0 == j)) [
            | inl e ↦ inl (b, inl refl, ground (arith, i.1, e))
            | inr e ↦ inr (later (λ e'. ground (arith, i.1, e, e')))
          ]
        ]
  ]

module _ {V : Type 0} (items : V → Option (List V)) (slots : List (ValueSlot V)) where
  contains_at :
      (bs : List (Bind V)) (values : OperationValues V) (s : ValueSlot V)
      (h : from_bound items slots bs ≡ ok values) (i : ℕ)
      → index slots s ≡ some i
      → (c : Option (Stored V)) → get_elem? (from_bound-inv items slots bs values h).0 i ≡ some c
      → contains values s ≡ ok (is_some c)
  unfolding contains cell
  contains_at bs values s h i found c at =
      let run = from_bound-inv items slots bs values h in
      let read : contains (record { slots = slots; cells = run.0 }) s ≡ ok (is_some c) =
        ground (arith, found, at) in
      subst (λ v. contains v s ≡ ok (is_some c)) (sym run.3) read

  -- When `from_bound` returns for a shape, each slot of it either has a binding and a value, or has
  -- no value and is not required.
  pub contains-from_bound :
      (bs : List (Bind V)) (values : OperationValues V) (s : ValueSlot V)
      → check_shape [] slots ≡ ok tt
      → from_bound items slots bs ≡ ok values
      → Mem s slots
      → ((b : Bind V) × Mem b bs × (b.slot.identity ≡ s.identity) × (contains values s ≡ ok true))
        ⊎ (All (λ (b : Bind V). b.slot.identity ≢ s.identity) bs
            × (contains values s ≡ ok false)
            × (s.required ≡ false))
  contains-from_bound bs values s shape h m =
      let run = from_bound-inv items slots bs values h in
      let place = place_of [] slots s shape m in
      elim (bound_or_not slots bs place.0) [
        | inl there ↦
            let held =
              bind_all-Holds items slots (replicate (length slots) none) run.0 [] bs there.0 run.1
                (length-replicate (length slots) none) there.1 in
            inl (
              there.0,
              there.1,
              index-identity slots there.0.slot s place.0 there.2 place.1,
              contains_at bs values s h place.0 place.1 (some held.stored) (
                  subst (λ i. get_elem? run.0 i ≡ some (some held.stored))
                    (ground (arith, held.found, there.2)) held.held),
            )
        | inr none_there ↦
            let missing : get_elem? run.0 place.0 ≡ some none =
              bind_all-unbound items slots (replicate (length slots) none) run.0 [] bs place.0 run.1
                none_there
              ∙ get_elem?-replicate (length slots) place.0 none
                  (index-lt slots s place.0 place.1) in
            inr (
              All-of (λ (b : Bind V). b.slot.identity ≢ s.identity) bs
                  (λ b m' e. none_there b m' (index-same slots b.slot s e ∙ place.1)),
              contains_at bs values s h place.0 place.1 none missing,
              check_required-at slots run.0 place.0 s run.2 place.2 missing,
            )
      ]
