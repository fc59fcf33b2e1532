-- ===== src/Kernel/Patch/Appends.antt =====
-- A run of appends to a slot without a value, and one replacement of all its values.
use eazy_sdk.Prelude.{
  append_nil, append_one, get_elem?-set_self, ℕ, suc, zero, ◌<◌, ◌≡◌, refl, sym, ◌∙◌, ap, Option,
  none, some, List, [], ◌∷◌, ◌++◌, get_elem?, length, set, map, inl, inr, arith, Bool-cases,
  Option-cases,
}
use eazy_sdk.Prelude.Outcome.{ok, ◌>>=◌, Outcome-cases}
use eazy_sdk.Kernel.Values.{ValueSlot, OperationValues, Stored, group, cell, index, many}
use eazy_sdk.Kernel.Patch.{
  PatchOperation, error, replace_lower_priority, append, replace_all, written, step_cells,
  apply_all, apply_patch_atomic, validate, validate_all, is_many,
}

module _ {A : Type 0} where
  set-set : (l : List A) (i : ℕ) (a b : A) → set (set l i a) i b ≡ set l i b
  set-set [] i a b = refl
  set-set (x ∷ l) zero a b = refl
  set-set (x ∷ l) (suc i) a b = ap (λ z. x ∷ z) (set-set l i a b)

  set_same : (l : List A) (i : ℕ) (a : A) → get_elem? l i ≡ some a → set l i a ≡ l
  set_same [] i a h = refl
  set_same (x ∷ l) zero a h = ground (arith, h)
  set_same (x ∷ l) (suc i) a h = ap (λ z. x ∷ z) (set_same l i a h)

  get_elem?-lt : (l : List A) (i : ℕ) (a : A) → get_elem? l i ≡ some a → i < length l
  get_elem?-lt [] i a h = absurd (ground (arith, h))
  get_elem?-lt (x ∷ l) zero a h = omega arith
  get_elem?-lt (x ∷ l) (suc i) a h = omega (arith, get_elem?-lt l i a h)

module _ {V : Type 0} (slot : ValueSlot V) where
  -- `Append(slot, value, PatchConflict.REPLACE_LOWER_PRIORITY)` and `ReplaceAll(slot, values)`
  abbrev pub append_of : V → PatchOperation V
  append_of value = record { slot = slot; write = append value; conflict = replace_lower_priority }

  abbrev pub replace_all_of : List V → PatchOperation V
  replace_all_of values = record { slot = slot; write = replace_all values; conflict = error }

module _ {V : Type 0} (as_tuple : V → Option (List V)) (slots : List (ValueSlot V))
    (slot : ValueSlot V) (i : ℕ) (found : index slots slot ≡ some i)
    (several : slot.cardinality ≡ many) where
  -- Appends to a group that is there.
  appends_more :
      (values acc : List V) (cells : List (Option (Stored V))) (writes : List ℕ)
      → get_elem? cells i ≡ some (some (group acc))
      → apply_all as_tuple slots cells writes (map (append_of slot) values)
        ≡ (validate_all slot values >>= λ vs. ok (set cells i (some (group (acc ++ vs)))))
  unfolding apply_all validate_all step_cells written
  appends_more [] acc cells writes at = ap ok (
      sym (
        set_same cells i (some (group (acc ++ [])))
          (at ∙ ap (λ l. some (some (group l))) (sym (append_nil acc)))))
  appends_more (v ∷ values) acc cells writes at = elim (Outcome-cases (validate slot v)) [
    | inr e ↦ ground (arith, found, several, at, e.1)
    | inl w ↦
        let ih =
          appends_more values (acc ++ w.0 ∷ []) (set cells i (some (group (acc ++ w.0 ∷ []))))
            (i ∷ writes)
            (get_elem?-set_self cells i (some (group (acc ++ w.0 ∷ [])))
              (get_elem?-lt cells i (some (group acc)) at)) in
        elim (Outcome-cases (validate_all slot values)) [
          | inr e ↦ ground (arith, found, several, at, w.1, e.1, ih)
          | inl ws ↦
              let joined : set (set cells i (some (group (acc ++ w.0 ∷ [])))) i
                    (some (group ((acc ++ w.0 ∷ []) ++ ws.0)))
                  ≡ set cells i (some (group (acc ++ w.0 ∷ ws.0))) =
                set-set cells i (some (group (acc ++ w.0 ∷ [])))
                  (some (group ((acc ++ w.0 ∷ []) ++ ws.0)))
                ∙ ap (λ l. set cells i (some (group l))) (append_one acc ws.0 w.0) in
              ground (arith, found, several, at, w.1, ws.1, ih, joined)
        ]
  ]

module _ {V : Type 0} (as_tuple : V → Option (List V)) where
  appends_from_none :
      (slots : List (ValueSlot V)) (cells : List (Option (Stored V))) (slot : ValueSlot V) (i : ℕ)
      (first : V) (rest : List V)
      → index slots slot ≡ some i
      → slot.cardinality ≡ many
      → get_elem? cells i ≡ some none
      → apply_all as_tuple slots cells [] (map (append_of slot) (first ∷ rest))
        ≡ apply_all as_tuple slots cells [] (replace_all_of slot (first ∷ rest) ∷ [])
  unfolding apply_all step_cells written validate_all
  appends_from_none slots cells slot i first rest found several at =
      elim (Outcome-cases (validate slot first)) [
        | inr e ↦ ground (arith, found, several, at, e.1)
        | inl w ↦
            let more =
              appends_more as_tuple slots slot i found several rest (w.0 ∷ [])
                (set cells i (some (group (w.0 ∷ [])))) (i ∷ [])
                (get_elem?-set_self cells i (some (group (w.0 ∷ [])))
                  (get_elem?-lt cells i none at)) in
            elim (Outcome-cases (validate_all slot rest)) [
              | inr e ↦ ground (arith, found, several, at, w.1, e.1, more)
              | inl ws ↦ ground (
                arith,
                found,
                several,
                at,
                w.1,
                ws.1,
                more,
                set-set cells i (some (group (w.0 ∷ []))) (some (group (w.0 ∷ ws.0))),
              )
            ]
      ]

  -- To append one or more values, one operation each and each with the conflict rule
  -- `replace_lower_priority`, to a slot of a shape that has no value yet is to replace all its
  -- values by them: the same result, the same error of a validator, and the same refusal where the
  -- slot takes one value only.
  pub apply_patch-appends :
      (values : OperationValues V) (slot : ValueSlot V) (first : V) (rest : List V)
      → cell values slot ≡ ok none
      → apply_patch_atomic as_tuple values (map (append_of slot) (first ∷ rest))
        ≡ apply_patch_atomic as_tuple values (replace_all_of slot (first ∷ rest) ∷ [])
  unfolding apply_patch_atomic cell apply_all step_cells written
  apply_patch-appends values slot first rest h = elim (Option-cases (index values.slots slot)) [
    | inl n ↦ absurd (ground (arith, h, n))
    | inr i ↦ elim (Option-cases (get_elem? values.cells i.0)) [
      | inl n ↦ absurd (ground (arith, h, i.1, n))
      | inr c ↦ elim (Bool-cases (is_many slot.cardinality)) [
        | inl m ↦ ground (
          arith,
          appends_from_none values.slots values.cells slot i.0 first rest i.1 (ground (arith, m))
              (ground (arith, h, i.1, c.1)),
        )
        | inr o ↦ ground (arith, h, i.1, c.1, o)
      ]
    ]
  ]
