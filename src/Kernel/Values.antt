-- ===== src/Kernel/Values.antt =====
-- eazy_sdk/core/kernel.py: the slots of an operation and the values bound to them. Objects are
-- named by identity (`slot is target`), a value is an object of the caller's program.
use eazy_sdk.Prelude.{
  ℕ, suc, Bool, not, ◌&&◌, Option, none, some, List, [], ◌∷◌, ◌==◌, elem, get_elem?, is_some,
  if◌then◌else◌, length, set, replicate,
}
use eazy_sdk.Prelude.Outcome.{Outcome, ok, err, ◌>>=◌, refuse_if, or_raise}

pub data Cardinality : Type 0 where
  one many : Cardinality

-- What a validator does: it returns a value, raises `TypeError` or `ValueError`, or another error.
pub data Validation (V : Type 0) : Type 0 where
  valid : V → Validation V
  refused broke : ℕ → Validation V

pub record ValueSlot (V : Type 0) : Type 0 where
  pub identity : ℕ
  pub validator : V → Validation V
  pub required : Bool
  pub cardinality : Cardinality

-- `BindingError`, `SlotValueError`, `SlotBindingError` and `PatchError`, with the slot's identity
-- where the error is about one, and an error of a validator.
pub data KernelError : Type 0 where
  length_mismatch : KernelError
  duplicate_slot unknown_slot duplicate_binding no_sequence missing_required no_value :
      ℕ → KernelError
  slot_value : ℕ → ℕ → KernelError
  patch_unknown_slot multiple_writes needs_many bad_group : ℕ → KernelError
  raised : ℕ → KernelError

-- What a slot holds: an object, or the tuple of a multi-value slot.
pub data Stored (V : Type 0) : Type 0 where
  single : V → Stored V
  group : List V → Stored V

pub record Bind (V : Type 0) : Type 0 where
  pub slot : ValueSlot V
  pub value : V

-- `OperationValues`: the slots of the shape, and per slot its value or `_MISSING`.
pub record OperationValues (V : Type 0) : Type 0 where
  pub slots : List (ValueSlot V)
  pub cells : List (Option (Stored V))

module _ {V : Type 0} where
  -- `OperationShape.__post_init__`
  unfoldable pub check_shape : List ℕ → List (ValueSlot V) → Outcome KernelError (Unit {0})
  check_shape seen [] = ok tt
  check_shape seen (slot ∷ rest) =
      let more = check_shape (slot.identity ∷ seen) rest in
      refuse_if (elem slot.identity seen) (duplicate_slot slot.identity) >>= λ done. more

  -- `OperationShape.index`, `none` where it raises.
  unfoldable pub index : List (ValueSlot V) → ValueSlot V → Option ℕ
  index [] target = none
  index (slot ∷ rest) target =
      let more = index rest target in
      if slot.identity == target.identity
      then some 0
      else elim more [ none ↦ none | some i ↦ some (suc i) ]

  -- `OperationValues.__post_init__`
  unfoldable pub operation_values :
      List (ValueSlot V) → List (Option (Stored V)) → Outcome KernelError (OperationValues V)
  operation_values slots cells =
      if length cells == length slots
      then ok (record { slots = slots; cells = cells })
      else err length_mismatch

  unfoldable pub empty_values : List (ValueSlot V) → Outcome KernelError (OperationValues V)
  empty_values slots = operation_values slots (replicate (length slots) none)

  -- `self._values[self.shape.index(slot)]`
  unfoldable pub cell : OperationValues V → ValueSlot V → Outcome KernelError (Option (Stored V))
  unfolding index
  cell v slot = or_raise (index v.slots slot) (unknown_slot slot.identity) >>= λ i.
      or_raise (get_elem? v.cells i) length_mismatch

  unfoldable pub contains : OperationValues V → ValueSlot V → Outcome KernelError Bool
  contains v slot = cell v slot >>= λ c. ok (is_some c)

  -- `get_value`, whose default is what `none` stands for.
  unfoldable pub get_value :
      OperationValues V → ValueSlot V → Option (Stored V) → Outcome KernelError (Option (Stored V))
  get_value v slot default =
      cell v slot >>= λ c. ok (elim c [ none ↦ default | some stored ↦ some stored ])

  unfoldable pub require_value : OperationValues V → ValueSlot V → Outcome KernelError (Stored V)
  require_value v slot = cell v slot >>= λ c. or_raise c (no_value slot.identity)

  -- The pairs of `zip`, in the order of the slots, without the missing values.
  abbrev present : List (ValueSlot V) → List (Option (Stored V)) → List (ValueSlot V × Stored V)
  present [] cells = []
  present (slot ∷ slots) [] = []
  present (slot ∷ slots) (none ∷ cells) = present slots cells
  present (slot ∷ slots) (some stored ∷ cells) = (slot, stored) ∷ present slots cells

  unfoldable pub ordered_items : OperationValues V → List (ValueSlot V × Stored V)
  ordered_items v = present v.slots v.cells

  -- The error of a validator as `from_bound` raises it.
  unfoldable pub checked : ValueSlot V → V → Outcome KernelError V
  checked slot value = elim (slot.validator value) [
    | valid v ↦ ok v
    | refused e ↦ err (slot_value slot.identity e)
    | broke e ↦ err (raised e)
  ]

  -- `tuple(slot.validator(item) for item in …)`
  unfoldable pub checked_all : ValueSlot V → List V → Outcome KernelError (List V)
  checked_all slot [] = ok []
  checked_all slot (item ∷ rest) =
      let more = checked_all slot rest in checked slot item >>= λ v. more >>= λ vs. ok (v ∷ vs)

  -- The loop over `shape.slots`.
  unfoldable pub check_required :
      List (ValueSlot V) → List (Option (Stored V)) → Outcome KernelError (Unit {0})
  check_required [] cells = ok tt
  check_required (slot ∷ slots) [] = err length_mismatch
  check_required (slot ∷ slots) (c ∷ cells) =
      let more = check_required slots cells in
      refuse_if (slot.required && not (is_some c)) (missing_required slot.identity) >>= λ done. more

  -- `items` is the contents of a `Sequence` that is no text and no bytes, `none` on other objects.
  module _ (items : V → Option (List V)) where
    -- The value that `from_bound` writes for a binding.
    unfoldable pub stored_of : Bind V → Outcome KernelError (Stored V)
    stored_of b = elim (b.slot.cardinality) [
      | many ↦ or_raise (items b.value) (no_sequence b.slot.identity) >>= λ vs.
          checked_all b.slot vs >>= λ checked_values. ok (group checked_values)
      | one ↦ checked b.slot b.value >>= λ v. ok (single v)
    ]

    -- The loop over the bindings.
    unfoldable pub bind_all :
        List (ValueSlot V)
        → List (Option (Stored V))
        → List ℕ
        → List (Bind V)
        → Outcome KernelError (List (Option (Stored V)))
    bind_all slots cells occupied [] = ok cells
    bind_all slots cells occupied (b ∷ rest) =
        or_raise (index slots b.slot) (unknown_slot b.slot.identity) >>= λ i.
        refuse_if (elem i occupied) (duplicate_binding b.slot.identity) >>= λ done.
        stored_of b >>= λ stored. bind_all slots (set cells i (some stored)) (i ∷ occupied) rest

    unfoldable pub from_bound :
        List (ValueSlot V) → List (Bind V) → Outcome KernelError (OperationValues V)
    from_bound slots bindings =
        bind_all slots (replicate (length slots) none) [] bindings >>= λ cells.
        check_required slots cells >>= λ done. operation_values slots cells
