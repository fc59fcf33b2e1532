-- ===== src/Kernel/Patch.antt =====
-- eazy_sdk/core/kernel.py: `apply_patch_atomic`, which works on a copy of the values, and
-- `arbitrate_cases`.
pub mod Frame
pub mod Twice
pub mod Appends
use eazy_sdk.Prelude.{
  ℕ, ◌≡◌, Bool, true, false, ◌&&◌, Option, none, some, List, [], ◌∷◌, ◌++◌, ◌==◌, elem, get_elem?,
  map, is_some, if◌then◌else◌, set,
}
use eazy_sdk.Prelude.Outcome.{Outcome, ok, err, ◌>>=◌, refuse_if, or_raise}
use eazy_sdk.Kernel.Values.{
  Cardinality, one, many, valid, refused, broke, ValueSlot, KernelError, patch_unknown_slot,
  length_mismatch, multiple_writes, needs_many, bad_group, raised, Stored, single, group,
  OperationValues, operation_values, index,
}

pub data PatchConflict : Type 0 where
  error replace_lower_priority preserve_existing : PatchConflict

-- The value of `Set` and `Append`, the values of `ReplaceAll`.
pub data Write (V : Type 0) : Type 0 where
  set_value append : V → Write V
  replace_all : List V → Write V

pub record PatchOperation (V : Type 0) : Type 0 where
  pub slot : ValueSlot V
  pub write : Write V
  pub conflict : PatchConflict

abbrev pub is_error : PatchConflict → Bool
is_error error = true
is_error _ = false

abbrev pub is_preserve : PatchConflict → Bool
is_preserve preserve_existing = true
is_preserve _ = false

abbrev pub is_many : Cardinality → Bool
is_many many = true
is_many one = false

module _ {V : Type 0} where
  -- A validator's error leaves `apply_patch_atomic` as it is.
  unfoldable pub validate : ValueSlot V → V → Outcome KernelError V
  validate slot value = elim (slot.validator value) [
    | valid v ↦ ok v
    | refused e ↦ err (raised e)
    | broke e ↦ err (raised e)
  ]

  unfoldable pub validate_all : ValueSlot V → List V → Outcome KernelError (List V)
  validate_all slot [] = ok []
  validate_all slot (item ∷ rest) =
      let more = validate_all slot rest in validate slot item >>= λ v. more >>= λ vs. ok (v ∷ vs)

  -- `as_tuple` is the contents of an object that is a tuple.
  module _ (as_tuple : V → Option (List V)) where
    -- `(item,)` or `(*previous, item)`
    abbrev pub appended : ℕ → Option (Stored V) → V → Outcome KernelError (Stored V)
    appended identity none item = ok (group (item ∷ []))
    appended identity (some (group vs)) item = ok (group (vs ++ item ∷ []))
    appended identity (some (single v)) item =
        or_raise (as_tuple v) (bad_group identity) >>= λ vs. ok (group (vs ++ item ∷ []))

    -- What an operation writes in place of the previous cell.
    unfoldable pub written : PatchOperation V → Option (Stored V) → Outcome KernelError (Stored V)
    written p previous = elim (p.write) [
      | append value ↦
          if is_many p.slot.cardinality
          then (validate p.slot value >>= λ item. appended p.slot.identity previous item)
          else err (needs_many p.slot.identity)
      | replace_all values ↦
          if is_many p.slot.cardinality
          then (validate_all p.slot values >>= λ vs. ok (group vs))
          else err (needs_many p.slot.identity)
      | set_value value ↦ validate p.slot value >>= λ v. ok (single v)
    ]

    -- The candidate after an operation that no write before it excludes.
    unfoldable pub step_cells :
        List (Option (Stored V))
        → ℕ
        → PatchOperation V
        → Outcome KernelError (List (Option (Stored V)))
    step_cells candidate i p = or_raise (get_elem? candidate i) length_mismatch >>= λ previous.
        if is_preserve p.conflict && is_some previous
        then ok candidate
        else (written p previous >>= λ stored. ok (set candidate i (some stored)))

    -- The loop: `writes` are the keys of the dictionary of that name.
    unfoldable pub apply_all :
        List (ValueSlot V)
        → List (Option (Stored V))
        → List ℕ
        → List (PatchOperation V)
        → Outcome KernelError (List (Option (Stored V)))
    apply_all slots candidate writes [] = ok candidate
    apply_all slots candidate writes (p ∷ rest) =
        or_raise (index slots p.slot) (patch_unknown_slot p.slot.identity) >>= λ i.
        refuse_if (elem i writes && is_error p.conflict) (multiple_writes p.slot.identity)
        >>= λ done. step_cells candidate i p >>= λ next. apply_all slots next (i ∷ writes) rest

    unfoldable pub apply_patch_atomic :
        OperationValues V → List (PatchOperation V) → Outcome KernelError (OperationValues V)
    apply_patch_atomic values patch = apply_all values.slots values.cells [] patch >>= λ candidate.
        operation_values values.slots candidate

-- `CaseArbitration`
pub data CaseArbitration (C X E : Type 0) : Type 0 where
  selected : C → X → CaseArbitration C X E
  ambiguous : List C → CaseArbitration C X E
  malformed : C → E → CaseArbitration C X E
  no_match : CaseArbitration C X E

unfoldable pub arbitrate_cases :
    {C X E : Type 0} → List (C × X) → List (C × E) → CaseArbitration C X E
arbitrate_cases {C = C} {X = X} (a ∷ b ∷ rest) bad =
    ambiguous (map (λ (m : C × X). m.0) (a ∷ b ∷ rest))
arbitrate_cases (a ∷ []) bad = selected a.0 a.1
arbitrate_cases [] (m ∷ rest) = malformed m.0 m.1
arbitrate_cases [] [] = no_match
