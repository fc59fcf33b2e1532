-- ===== src/Kernel/Examples.antt =====
-- A shape of three slots, and a plan of three nodes.
use eazy_sdk.Prelude.{
  ℕ, ◌≤◌, ◌≡◌, ◌≢◌, ◌⊎◌, refl, true, false, Option, none, some, List, [], ◌∷◌, ◌==◌, ltb, elem,
  if◌then◌else◌, All, inl, inr, arith, map,
}
use eazy_sdk.Prelude.Outcome.{ok, err}
use eazy_sdk.Dict.{Mem}
use eazy_sdk.Kernel.Values.{
  Validation, valid, refused, ValueSlot, one, many, Bind, Stored, single, group, OperationValues,
  from_bound, require_value, contains, stored_of, cell, check_shape, index, checked, checked_all,
  bind_all, check_required, operation_values,
}
use eazy_sdk.Kernel.Bound.{require_value-from_bound}
use eazy_sdk.Kernel.Present.{contains-from_bound}
use eazy_sdk.Kernel.Returns.{from_bound-returns}
use eazy_sdk.Kernel.Patch.{
  PatchOperation, set_value, append, error, preserve_existing, apply_patch_atomic, apply_all,
  step_cells, written, validate,
}
use eazy_sdk.Kernel.Patch.Frame.{cell-apply_patch}
use eazy_sdk.Kernel.Patch.Twice.{apply_patch-written_twice}
use eazy_sdk.Kernel.Patch.Appends.{append_of, replace_all_of, apply_patch-appends}
use eazy_sdk.Kernel.Graph.{Node, compile_graph, out_of_fuel, cycle, name_le}
use eazy_sdk.Kernel.Graph.Counts.{occ}
use eazy_sdk.Kernel.Graph.Order.{compile_graph-Needs, compile_graph-occ}
use eazy_sdk.Kernel.Graph.Acyclic.{compile_graph-ends, compile_graph-acyclic}
use eazy_sdk.Kernel.Graph.Ranked.{RankGrows}

-- Digits are valid, 7 is a sequence and a tuple.
abbrev digit : ℕ → Validation ℕ
digit n = if ltb n 10 then valid n else refused 1

abbrev contents : ℕ → Option (List ℕ)
contents n = if n == 7 then some (1 ∷ 2 ∷ []) else none

abbrev user : ValueSlot ℕ
user = record { identity = 1; validator = digit; required = true; cardinality = one }

abbrev tags : ValueSlot ℕ
tags = record { identity = 2; validator = digit; required = false; cardinality = many }

abbrev note : ValueSlot ℕ
note = record { identity = 3; validator = digit; required = false; cardinality = many }

abbrev shape : List (ValueSlot ℕ)
shape = user ∷ tags ∷ note ∷ []

abbrev user_binding : Bind ℕ
user_binding = record { slot = user; value = 4 }

abbrev tags_binding : Bind ℕ
tags_binding = record { slot = tags; value = 7 }

abbrev bindings : List (Bind ℕ)
bindings = tags_binding ∷ user_binding ∷ []

abbrev bound : OperationValues ℕ
bound = record { slots = shape; cells = some (single 4) ∷ some (group (1 ∷ 2 ∷ [])) ∷ none ∷ [] }

from_bound-bindings : from_bound contents shape bindings ≡ ok bound
unfolding from_bound bind_all check_required operation_values stored_of checked checked_all index
from_bound-bindings = refl

require_value-from_bound_example :
    (stored : Stored ℕ) × (stored_of contents tags_binding ≡ ok stored)
    × (require_value bound tags ≡ ok stored)
require_value-from_bound_example =
    require_value-from_bound contents shape bindings bound tags_binding from_bound-bindings
      (inl refl)

shape_checked : check_shape [] shape ≡ ok tt
unfolding check_shape
shape_checked = refl

contains-from_bound_example :
    ((b : Bind ℕ) × Mem b bindings
      × (b.slot.identity ≡ note.identity)
      × (contains bound note ≡ ok true))
    ⊎ (All (λ (b : Bind ℕ). b.slot.identity ≢ note.identity) bindings
        × (contains bound note ≡ ok false)
        × (note.required ≡ false))
contains-from_bound_example =
    contains-from_bound contents shape bindings bound note shape_checked from_bound-bindings
      (inr (inr (inl refl)))

from_bound-returns_example :
    (values : OperationValues ℕ) × (from_bound contents shape bindings ≡ ok values)
unfolding index stored_of checked checked_all
from_bound-returns_example =
    from_bound-returns contents shape bindings shape_checked ((λ e. omega (arith, e), tt), (tt, tt))
      (((1, refl), (group (1 ∷ 2 ∷ []), refl)), (((0, refl), (single 4, refl)), tt))
      (inr (user_binding, inr (inl refl), refl), (inl refl, (inl refl, tt)))

abbrev keep_user : PatchOperation ℕ
keep_user = record { slot = user; write = set_value 9; conflict = preserve_existing }

abbrev add_note : PatchOperation ℕ
add_note = record { slot = note; write = append 5; conflict = error }

abbrev patched : OperationValues ℕ
patched = record {
  slots = shape;
  cells = some (single 4) ∷ some (group (1 ∷ 2 ∷ [])) ∷ some (group (5 ∷ [])) ∷ [];
}

patch_applied : apply_patch_atomic contents bound (keep_user ∷ add_note ∷ []) ≡ ok patched
unfolding apply_patch_atomic apply_all step_cells written validate operation_values index
patch_applied = refl

cell-apply_patch_example : cell patched user ≡ cell bound user
unfolding contains cell index
cell-apply_patch_example =
    cell-apply_patch contents bound patched (keep_user ∷ add_note ∷ []) user patch_applied
      (inr (refl, refl), (inl (λ e. omega (arith, e)), tt))

apply_patch-written_twice_example :
    apply_patch_atomic contents bound (keep_user ∷ add_note ∷ keep_user ∷ add_note ∷ [])
    ≢ ok patched
apply_patch-written_twice_example =
    apply_patch-written_twice contents bound patched (keep_user ∷ []) (keep_user ∷ []) [] add_note
      add_note refl refl

apply_patch-appends_example :
    apply_patch_atomic contents bound (map (append_of note) (3 ∷ 12 ∷ []))
    ≡ apply_patch_atomic contents bound (replace_all_of note (3 ∷ 12 ∷ []) ∷ [])
unfolding cell index
apply_patch-appends_example = apply_patch-appends contents bound note 3 (12 ∷ []) refl

-- `b` names `c`, and reads what `a` writes.
abbrev a : Node
a = record { identity = 1; name = 97 ∷ []; kind = 0; reads = []; writes = 10 ∷ []; after = [] }

abbrev b : Node
b = record { identity = 2; name = 98 ∷ []; kind = 0; reads = 10 ∷ []; writes = []; after = 3 ∷ [] }

abbrev c : Node
c = record { identity = 3; name = 99 ∷ []; kind = 0; reads = []; writes = []; after = [] }

abbrev nodes : List Node
nodes = a ∷ b ∷ c ∷ []

abbrev in_order : List Node → List Node
in_order l = l

plan : compile_graph in_order nodes ≡ ok (a ∷ c ∷ b ∷ [])
unfolding compile_graph name_le
plan = refl

compile_graph-Needs_example : elem 3 (1 ∷ 3 ∷ []) ≡ true
compile_graph-Needs_example =
    compile_graph-Needs in_order (λ v l. refl) nodes (a ∷ c ∷ b ∷ []) b (1 ∷ 3 ∷ []) [] 3 plan
      (inr (inl refl)) refl (inl (inl refl))

compile_graph-occ_example : (occ 2 (a ∷ c ∷ b ∷ []) ≡ occ 2 nodes) × (occ 2 (a ∷ c ∷ b ∷ []) ≤ 1)
compile_graph-occ_example = compile_graph-occ in_order (λ v l. refl) nodes (a ∷ c ∷ b ∷ []) plan 2

compile_graph-ends_example : compile_graph in_order nodes ≢ err out_of_fuel
compile_graph-ends_example = compile_graph-ends in_order (λ v l. refl) nodes

abbrev rank : ℕ → ℕ
rank i = if i == 2 then 1 else 0

grows : RankGrows nodes rank nodes
grows = (
  λ u needs. elim needs [
    | inl m ↦ elim m [ ]
    | inr (w, slot, m, same, apart, writes, reads) ↦ elim reads [ ]
  ],
  (
    λ u needs. elim needs [
      | inl (inl e) ↦ ground (arith, e)
      | inl (inr m) ↦ elim m [ ]
      | inr (w, slot, m, same, apart, writes, reads) ↦ ground (arith, same, apart)
    ],
    (
      λ u needs. elim needs [
        | inl m ↦ elim m [ ]
        | inr (w, slot, m, same, apart, writes, reads) ↦ elim reads [ ]
      ],
      tt,
    ),
  ),
)

compile_graph-acyclic_example : compile_graph in_order nodes ≢ err cycle
compile_graph-acyclic_example = compile_graph-acyclic in_order (λ v l. refl) nodes rank grows
