-- ===== src/Kernel/Patch/Frame.antt =====
-- What a patch leaves alone.
use eazy_sdk.Prelude.{
  get_elem?-set_other, ℕ, ◌≡◌, ◌≢◌, ◌⊎◌, sym, ◌∙◌, subst, true, Option, some, List, [], ◌∷◌, ◌==◌,
  elem, get_elem?, All, length, inl, inr, arith, Bool-cases, Option-cases, length-set,
}
use eazy_sdk.Prelude.Outcome.{ok, Outcome-cases}
use eazy_sdk.Kernel.Values.{
  ValueSlot, OperationValues, Stored, cell, index, operation_values, contains,
}
use eazy_sdk.Kernel.Patch.{
  PatchOperation, error, preserve_existing, written, step_cells, apply_all, apply_patch_atomic,
}
use eazy_sdk.Kernel.Bound.{index-identity}

-- The loop goes on after an operation.
pub record PatchStep {V : Type 0} (as_tuple : V → Option (List V)) (slots : List (ValueSlot V))
    (candidate out : List (Option (Stored V))) (writes : List ℕ) (p : PatchOperation V)
    (rest : List (PatchOperation V)) : Type 0 where
  pub place : ℕ
  pub next : List (Option (Stored V))
  pub found : index slots p.slot ≡ some place
  pub free : (elem place writes ≡ true) → p.conflict ≡ error → ⊥
  pub stepped : step_cells as_tuple candidate place p ≡ ok next
  pub more : apply_all as_tuple slots next (place ∷ writes) rest ≡ ok out

module _ {V : Type 0} (as_tuple : V → Option (List V)) where
  pub patch_step :
      (slots : List (ValueSlot V)) (candidate out : List (Option (Stored V))) (writes : List ℕ)
      (p : PatchOperation V) (rest : List (PatchOperation V))
      → apply_all as_tuple slots candidate writes (p ∷ rest) ≡ ok out
      → PatchStep as_tuple slots candidate out writes p rest
  unfolding apply_all
  patch_step slots candidate out writes p rest h = elim (Option-cases (index slots p.slot)) [
    | inl n ↦ absurd (ground (arith, h, n))
    | inr m ↦ elim (Outcome-cases (step_cells as_tuple candidate m.0 p)) [
      | inr e ↦ absurd (ground (arith, h, m.1, e.1))
      | inl v ↦ record {
        place = m.0;
        next = v.0;
        found = m.1;
        free = λ e e'. ground (arith, h, m.1, e, e');
        stepped = v.1;
        more = ground (arith, h, m.1, v.1);
      }
    ]
  ]

  -- A step writes at its place or nowhere.
  step_cells-frame :
      (candidate next : List (Option (Stored V))) (i j : ℕ) (p : PatchOperation V)
      → step_cells as_tuple candidate i p ≡ ok next
      → (i ≡ j → ⊥)
        ⊎ ((p.conflict ≡ preserve_existing)
            × ((s : Stored V) × (get_elem? candidate j ≡ some (some s))))
      → (get_elem? next j ≡ get_elem? candidate j)
  unfolding step_cells
  step_cells-frame candidate next i j p h k = elim (Option-cases (get_elem? candidate i)) [
    | inl n ↦ absurd (ground (arith, h, n))
    | inr c ↦ elim k [
      | inl apart ↦ elim (Outcome-cases (written as_tuple p c.0)) [
        | inl w ↦ ground (arith, h, c.1, w.1, get_elem?-set_other candidate i j (some w.0) apart)
        | inr e ↦ ground (arith, h, c.1, e.1)
      ]
      | inr kept ↦ elim (Bool-cases (i == j)) [
        | inl e ↦ ground (arith, h, c.1, kept.0, kept.1.1, e)
        | inr e ↦ elim (Outcome-cases (written as_tuple p c.0)) [
          | inl w ↦ ground (
            arith,
            h,
            c.1,
            w.1,
            kept.0,
            get_elem?-set_other candidate i j (some w.0) (λ e'. ground (arith, e, e')),
          )
          | inr f ↦ ground (arith, h, c.1, f.1, kept.0)
        ]
      ]
    ]
  ]

  step_cells-length :
      (candidate next : List (Option (Stored V))) (i : ℕ) (p : PatchOperation V)
      → step_cells as_tuple candidate i p ≡ ok next
      → length next ≡ length candidate
  unfolding step_cells
  step_cells-length candidate next i p h = elim (Option-cases (get_elem? candidate i)) [
    | inl n ↦ absurd (ground (arith, h, n))
    | inr c ↦ elim (Outcome-cases (written as_tuple p c.0)) [
      | inl w ↦ ground (arith, h, c.1, w.1, length-set candidate i (some w.0))
      | inr e ↦ ground (arith, h, c.1, e.1)
    ]
  ]

  pub apply_all-length :
      (slots : List (ValueSlot V)) (candidate out : List (Option (Stored V))) (writes : List ℕ)
      (patch : List (PatchOperation V))
      → apply_all as_tuple slots candidate writes patch ≡ ok out
      → length out ≡ length candidate
  unfolding apply_all
  apply_all-length slots candidate out writes [] h = ground (arith, h)
  apply_all-length slots candidate out writes (p ∷ rest) h =
      let step = patch_step slots candidate out writes p rest h in
      apply_all-length slots step.next out (step.place ∷ writes) rest step.more
      ∙ step_cells-length candidate step.next step.place p step.stepped

-- An operation writes to another slot, or preserves the value that the slot has.
abbrev Spares : {V : Type 0} → ValueSlot V → Option (Option (Stored V)) → PatchOperation V → Type 0
Spares {V = W} s c p =
    (p.slot.identity ≢ s.identity)
    ⊎ ((p.conflict ≡ preserve_existing) × ((x : Stored W) × (c ≡ some (some x))))

-- The same, for the values that a patch is applied to.
abbrev pub LeavesAlone : {V : Type 0} → OperationValues V → ValueSlot V → PatchOperation V → Type 0
LeavesAlone values s p =
    (p.slot.identity ≢ s.identity)
    ⊎ ((p.conflict ≡ preserve_existing) × (contains values s ≡ ok true))

module _ {V : Type 0} (as_tuple : V → Option (List V)) where
  apply_all-frame :
      (slots : List (ValueSlot V)) (candidate out : List (Option (Stored V))) (writes : List ℕ)
      (patch : List (PatchOperation V)) (s : ValueSlot V) (j : ℕ)
      → apply_all as_tuple slots candidate writes patch ≡ ok out
      → index slots s ≡ some j
      → All (Spares s (get_elem? candidate j)) patch
      → get_elem? out j ≡ get_elem? candidate j
  unfolding apply_all
  apply_all-frame slots candidate out writes [] s j h found a = ground (arith, h)
  apply_all-frame slots candidate out writes (p ∷ rest) s j h found a =
      let step = patch_step as_tuple slots candidate out writes p rest h in
      let same : step.place ≡ j → p.slot.identity ≡ s.identity = λ e.
        index-identity slots p.slot s j (subst (λ i. index slots p.slot ≡ some i) e step.found)
          found in
      let here =
        step_cells-frame as_tuple candidate step.next step.place j p step.stepped
          (elim (a.0) [ inl n ↦ inl (λ e. n (same e)) | inr k ↦ inr k ]) in
      apply_all-frame slots step.next out (step.place ∷ writes) rest s j step.more found
        (subst (λ c. All (Spares s c) rest) (sym here) a.1)
      ∙ here

  pub apply_patch-inv :
      (values after : OperationValues V) (patch : List (PatchOperation V))
      → apply_patch_atomic as_tuple values patch ≡ ok after
      → (out : List (Option (Stored V))) × (apply_all as_tuple values.slots values.cells [] patch
          ≡ ok out)
        × (after ≡ record { slots = values.slots; cells = out })
  unfolding apply_patch_atomic operation_values
  apply_patch-inv values after patch h =
      elim (Outcome-cases (apply_all as_tuple values.slots values.cells [] patch)) [
        | inr e ↦ absurd (ground (arith, h, e.1))
        | inl c ↦ (c.0, c.1, ground (arith, h, c.1))
      ]

  contains-found :
      (values : OperationValues V) (s : ValueSlot V) (j : ℕ)
      → index values.slots s ≡ some j
      → contains values s ≡ ok true
      → (x : Stored V) × (get_elem? values.cells j ≡ some (some x))
  unfolding contains cell
  contains-found values s j found h = elim (Option-cases (get_elem? values.cells j)) [
    | inl n ↦ absurd (ground (arith, h, found, n))
    | inr c ↦ elim (Option-cases c.0) [
      | inl n ↦ absurd (ground (arith, h, found, c.1, n))
      | inr x ↦ (x.0, ground (arith, c.1, x.1))
    ]
  ]

  All-Spares :
      (values : OperationValues V) (s : ValueSlot V) (j : ℕ) (patch : List (PatchOperation V))
      → index values.slots s ≡ some j
      → All (LeavesAlone values s) patch
      → All (Spares s (get_elem? values.cells j)) patch
  All-Spares values s j [] found a = tt
  All-Spares values s j (p ∷ rest) found a = (
    elim (a.0) [ inl n ↦ inl n | inr k ↦ inr (k.0, contains-found values s j found k.1) ],
    All-Spares values s j rest found a.1,
  )

  -- A patch that is applied leaves the value of a slot as it was when each of its operations is on
  -- another slot, or has `preserve_existing` and the slot had a value before the patch.
  pub cell-apply_patch :
      (values after : OperationValues V) (patch : List (PatchOperation V)) (s : ValueSlot V)
      → apply_patch_atomic as_tuple values patch ≡ ok after
      → All (LeavesAlone values s) patch
      → cell after s ≡ cell values s
  unfolding cell
  cell-apply_patch values after patch s h a =
      let run = apply_patch-inv values after patch h in
      elim (Option-cases (index values.slots s)) [
        | inl n ↦ ground (arith, run.2, n)
        | inr j ↦
            let kept =
              apply_all-frame values.slots values.cells run.0 [] patch s j.0 run.1 j.1
                (All-Spares values s j.0 patch j.1 a) in
            ground (arith, run.2, j.1, kept)
      ]
