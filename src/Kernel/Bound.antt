-- ===== src/Kernel/Bound.antt =====
-- What `from_bound` and the reads of its result agree on.
use eazy_sdk.Prelude.{
  get_elem?-set_self, get_elem?-set_other, ℕ, ◌<◌, ◌≡◌, refl, sym, ◌∙◌, subst, true, false, Option,
  none, some, List, [], ◌∷◌, ◌==◌, elem, get_elem?, length, set, replicate, inl, inr, arith,
  Bool-cases, Option-cases, length-set, length-replicate,
}
use eazy_sdk.Prelude.Outcome.{ok, Outcome-cases}
use eazy_sdk.Dict.{Mem}
use eazy_sdk.Kernel.Values.{
  ValueSlot, Bind, OperationValues, Stored, check_required, bind_all, from_bound, stored_of, cell,
  index, operation_values, require_value,
}

module _ {V : Type 0} where
  pub index-lt :
      (slots : List (ValueSlot V)) (t : ValueSlot V) (i : ℕ)
      → index slots t ≡ some i
      → i < length slots
  unfolding index
  index-lt [] t i h = absurd (ground (arith, h))
  index-lt (s ∷ slots) t i h = elim (Bool-cases (s.identity == t.identity)) [
    | inl e ↦ ground (arith, h)
    | inr e ↦ elim (Option-cases (index slots t)) [
      | inl n ↦ ground (arith, h)
      | inr m ↦ ground (arith, h, index-lt slots t m.0 m.1)
    ]
  ]

  pub index-same :
      (slots : List (ValueSlot V)) (s t : ValueSlot V)
      → s.identity ≡ t.identity
      → index slots s ≡ index slots t
  unfolding index
  index-same [] s t e = refl
  index-same (x ∷ slots) s t e = ground (arith, e, index-same slots s t e)

  -- Slots that are found in one place are one object.
  pub index-identity :
      (slots : List (ValueSlot V)) (s t : ValueSlot V) (i : ℕ)
      → index slots s ≡ some i
      → index slots t ≡ some i
      → s.identity ≡ t.identity
  unfolding index
  index-identity [] s t i h h' = absurd (ground (arith, h))
  index-identity (x ∷ slots) s t i h h' = elim (Option-cases (index slots s)) [
    | inl n ↦ ground (arith, h, h')
    | inr m ↦ elim (Option-cases (index slots t)) [
      | inl n ↦ ground (arith, h, h')
      | inr k ↦ ground (
        arith,
        h,
        h',
        k.1,
        λ (e : m.0 ≡ k.0).
            index-identity slots s t k.0 (subst (λ z. index slots s ≡ some z) e m.1) k.1,
      )
    ]
  ]

-- The loop goes on after a binding.
record BindStep {V : Type 0} (items : V → Option (List V)) (slots : List (ValueSlot V))
    (cells out : List (Option (Stored V))) (occupied : List ℕ) (b : Bind V) (rest : List (Bind V))
    : Type 0 where
  place : ℕ
  stored : Stored V
  found : index slots b.slot ≡ some place
  free : elem place occupied ≡ false
  value : stored_of items b ≡ ok stored
  more : bind_all items slots (set cells place (some stored)) (place ∷ occupied) rest ≡ ok out

module _ {V : Type 0} (items : V → Option (List V)) (slots : List (ValueSlot V)) where
  bind_step :
      (cells out : List (Option (Stored V))) (occupied : List ℕ) (b : Bind V) (rest : List (Bind V))
      → bind_all items slots cells occupied (b ∷ rest) ≡ ok out
      → BindStep items slots cells out occupied b rest
  unfolding bind_all
  bind_step cells out occupied b rest h = elim (Option-cases (index slots b.slot)) [
    | inl n ↦ absurd (ground (arith, h, n))
    | inr m ↦ elim (Outcome-cases (stored_of items b)) [
      | inr e ↦ absurd (ground (arith, h, m.1, e.1))
      | inl v ↦ record {
        place = m.0;
        stored = v.0;
        found = m.1;
        free = ground (arith, h, m.1, v.1);
        value = v.1;
        more = ground (arith, h, m.1, v.1);
      }
    ]
  ]

  -- A place that was occupied before is not written again.
  bind_all-occupied :
      (cells out : List (Option (Stored V))) (occupied : List ℕ) (bs : List (Bind V)) (j : ℕ)
      → bind_all items slots cells occupied bs ≡ ok out
      → elem j occupied ≡ true
      → get_elem? out j ≡ get_elem? cells j
  unfolding bind_all
  bind_all-occupied cells out occupied [] j h m = ground (arith, h)
  bind_all-occupied cells out occupied (b ∷ rest) j h m =
      let step = bind_step cells out occupied b rest h in
      let apart : step.place ≡ j → ⊥ = λ e. ground (arith, e, m, step.free) in
      bind_all-occupied (set cells step.place (some step.stored)) out (step.place ∷ occupied) rest j
        step.more (ground (arith, m))
      ∙ get_elem?-set_other cells step.place j (some step.stored) apart

  pub bind_all-length :
      (cells out : List (Option (Stored V))) (occupied : List ℕ) (bs : List (Bind V))
      → bind_all items slots cells occupied bs ≡ ok out
      → length out ≡ length cells
  unfolding bind_all
  bind_all-length cells out occupied [] h = ground (arith, h)
  bind_all-length cells out occupied (b ∷ rest) h =
      let step = bind_step cells out occupied b rest h in
      bind_all-length (set cells step.place (some step.stored)) out (step.place ∷ occupied) rest
        step.more
      ∙ length-set cells step.place (some step.stored)

  -- A place that no binding names is left alone.
  pub bind_all-unbound :
      (cells out : List (Option (Stored V))) (occupied : List ℕ) (bs : List (Bind V)) (j : ℕ)
      → bind_all items slots cells occupied bs ≡ ok out
      → ((b : Bind V) → Mem b bs → index slots b.slot ≡ some j → ⊥)
      → get_elem? out j ≡ get_elem? cells j
  unfolding bind_all
  bind_all-unbound cells out occupied [] j h n = ground (arith, h)
  bind_all-unbound cells out occupied (b ∷ rest) j h n =
      let step = bind_step cells out occupied b rest h in
      let apart : step.place ≡ j → ⊥ =
        λ e. n b (inl refl) (subst (λ z. index slots b.slot ≡ some z) e step.found) in
      bind_all-unbound (set cells step.place (some step.stored)) out (step.place ∷ occupied) rest j
        step.more (λ b' m. n b' (inr m))
      ∙ get_elem?-set_other cells step.place j (some step.stored) apart

-- The binding's slot holds what its validator made of the binding's value.
pub record Holds {V : Type 0} (items : V → Option (List V)) (slots : List (ValueSlot V))
    (cells : List (Option (Stored V))) (b : Bind V) : Type 0 where
  pub place : ℕ
  pub stored : Stored V
  pub found : index slots b.slot ≡ some place
  pub value : stored_of items b ≡ ok stored
  pub held : get_elem? cells place ≡ some (some stored)

module _ {V : Type 0} (items : V → Option (List V)) (slots : List (ValueSlot V)) where
  pub bind_all-Holds :
      (cells out : List (Option (Stored V))) (occupied : List ℕ) (bs : List (Bind V)) (b : Bind V)
      → bind_all items slots cells occupied bs ≡ ok out
      → length cells ≡ length slots
      → Mem b bs
      → Holds items slots out b
  bind_all-Holds cells out occupied [] b h l m = elim m [ ]
  bind_all-Holds cells out occupied (first ∷ rest) b h l m =
      let step = bind_step items slots cells out occupied first rest h in
      elim m [
        | inl e ↦
            let kept =
              bind_all-occupied items slots (set cells step.place (some step.stored)) out
                (step.place ∷ occupied) rest step.place step.more (ground arith) in
            let inside : step.place < length cells =
              subst (λ n. step.place < n) (sym l)
                (index-lt slots first.slot step.place step.found) in
            subst (λ (z : Bind V). Holds items slots out z) (sym e)
              (record {
                place = step.place;
                stored = step.stored;
                found = step.found;
                value = step.value;
                held = kept ∙ get_elem?-set_self cells step.place (some step.stored) inside;
              })
        | inr later ↦
            bind_all-Holds (set cells step.place (some step.stored)) out (step.place ∷ occupied)
              rest b step.more (length-set cells step.place (some step.stored) ∙ l) later
      ]

module _ {V : Type 0} (items : V → Option (List V)) (slots : List (ValueSlot V)) where
  -- What a call of `from_bound` that returns has run.
  pub from_bound-inv :
      (bs : List (Bind V)) (values : OperationValues V)
      → from_bound items slots bs ≡ ok values
      → (cells : List (Option (Stored V))) × (bind_all items slots
            (replicate (length slots) none)
            []
            bs
          ≡ ok cells)
        × (check_required slots cells ≡ ok tt)
        × (values ≡ record { slots = slots; cells = cells })
  unfolding from_bound operation_values
  from_bound-inv bs values h =
      elim (Outcome-cases (bind_all items slots (replicate (length slots) none) [] bs)) [
        | inr e ↦ absurd (ground (arith, h, e.1))
        | inl c ↦ elim (Outcome-cases (check_required slots c.0)) [
          | inr e ↦ absurd (ground (arith, h, c.1, e.1))
          | inl d ↦ (c.0, c.1, d.1, ground (arith, h, c.1, d.1))
        ]
      ]

  -- When `from_bound` returns, the value of a binding passed its slot's check, and `require_value`
  -- returns what that check made of it.
  pub require_value-from_bound :
      (bs : List (Bind V)) (values : OperationValues V) (b : Bind V)
      → from_bound items slots bs ≡ ok values
      → Mem b bs
      → (stored : Stored V) × (stored_of items b ≡ ok stored)
        × (require_value values b.slot ≡ ok stored)
  unfolding require_value cell
  require_value-from_bound bs values b h m =
      let run = from_bound-inv bs values h in
      let there =
        bind_all-Holds items slots (replicate (length slots) none) run.0 [] bs b run.1
          (length-replicate (length slots) none) m in
      let read : require_value (record { slots = slots; cells = run.0 }) b.slot ≡ ok there.stored =
        ground (arith, there.found, there.held) in
      (
        there.stored,
        there.value,
        subst (λ v. require_value v b.slot ≡ ok there.stored) (sym run.3) read,
      )
