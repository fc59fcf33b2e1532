-- ===== src/Kernel/Patch/Twice.antt =====
-- Two writes to one slot in a patch.
use eazy_sdk.Prelude.{ℕ, ◌≡◌, ◌≢◌, sym, ◌∙◌, true, Option, some, List, [], ◌∷◌, ◌++◌, elem, arith}
use eazy_sdk.Prelude.Outcome.{ok}
use eazy_sdk.Kernel.Values.{ValueSlot, OperationValues, Stored, index}
use eazy_sdk.Kernel.Patch.{PatchOperation, error, apply_all, apply_patch_atomic}
use eazy_sdk.Kernel.Bound.{index-same}
use eazy_sdk.Kernel.Patch.Frame.{patch_step, apply_patch-inv}

module _ {V : Type 0} (as_tuple : V → Option (List V)) where
  -- An operation that fails after a write to the same slot, however the operations between them
  -- come out.
  written_twice :
      (slots : List (ValueSlot V)) (candidate out : List (Option (Stored V))) (writes : List ℕ)
      (front back : List (PatchOperation V)) (q : PatchOperation V) (i : ℕ)
      → index slots q.slot ≡ some i
      → elem i writes ≡ true
      → q.conflict ≡ error
      → apply_all as_tuple slots candidate writes (front ++ q ∷ back) ≡ ok out
      → ⊥
  written_twice slots candidate out writes [] back q i found m e h =
      let step = patch_step as_tuple slots candidate out writes q back h in
      step.free (ground (arith, found, step.found, m)) e
  written_twice slots candidate out writes (p ∷ front) back q i found m e h =
      let step = patch_step as_tuple slots candidate out writes p (front ++ q ∷ back) h in
      written_twice slots step.next out (step.place ∷ writes) front back q i found
        (ground (arith, m)) e step.more

  apply_all-twice :
      (slots : List (ValueSlot V)) (candidate out : List (Option (Stored V))) (writes : List ℕ)
      (front middle back : List (PatchOperation V)) (p q : PatchOperation V)
      → p.slot.identity ≡ q.slot.identity
      → q.conflict ≡ error
      → apply_all as_tuple slots candidate writes (front ++ p ∷ middle ++ q ∷ back) ≡ ok out
      → ⊥
  apply_all-twice slots candidate out writes [] middle back p q same e h =
      let step = patch_step as_tuple slots candidate out writes p (middle ++ q ∷ back) h in
      written_twice slots step.next out (step.place ∷ writes) middle back q step.place
        (index-same slots q.slot p.slot (sym same) ∙ step.found) (ground arith) e step.more
  apply_all-twice slots candidate out writes (x ∷ front) middle back p q same e h =
      let step =
        patch_step as_tuple slots candidate out writes x (front ++ p ∷ middle ++ q ∷ back) h in
      apply_all-twice slots step.next out (step.place ∷ writes) front middle back p q same e
        step.more

  -- No patch is applied that writes to a slot twice when the later write has the conflict rule
  -- `error`, whatever stands before, between and after the two.
  pub apply_patch-written_twice :
      (values after : OperationValues V) (front middle back : List (PatchOperation V))
      (p q : PatchOperation V)
      → p.slot.identity ≡ q.slot.identity
      → q.conflict ≡ error
      → apply_patch_atomic as_tuple values (front ++ p ∷ middle ++ q ∷ back) ≢ ok after
  apply_patch-written_twice values after front middle back p q same e h =
      let run = apply_patch-inv as_tuple values after (front ++ p ∷ middle ++ q ∷ back) h in
      apply_all-twice values.slots values.cells run.0 [] front middle back p q same e run.1
