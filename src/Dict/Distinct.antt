-- ===== src/Dict/Distinct.antt =====
-- The keys of a `dict` are distinct, and stay so.
use eazy_sdk.Prelude.{
  ◌≡◌, refl, Bool, true, false, not, List, [], ◌∷◌, map, arith, inl, inr, Bool-cases, All,
}
use eazy_sdk.Dict.{put, remove, remove_all, filter}

module _ {K V : Type 0} (same : K → K → Bool) where
  -- No key of the list is the given one.
  abbrev pub Absent : K → List (K × V) → Type 0
  Absent k [] = Unit
  Absent k ((name, v) ∷ d) = (same k name ≡ false) × Absent k d

  abbrev pub Distinct : List (K × V) → Type 0
  Distinct [] = Unit
  Distinct ((name, v) ∷ d) = Absent name d × Distinct d

  put-Absent :
      (k name : K) (v : V) (d : List (K × V))
      → same k name ≡ false
      → Absent k d
      → Absent k (put same name v d)
  unfolding put
  put-Absent k name v [] e a = (e, tt)
  put-Absent k name v ((other, old) ∷ d) e a = elim (Bool-cases (same other name)) [
    | inl p ↦ ground arith
    | inr p ↦ ground (arith, put-Absent k name v d e a.1)
  ]

  pub put-Distinct : (k : K) (v : V) (d : List (K × V)) → Distinct d → Distinct (put same k v d)
  unfolding put
  put-Distinct k v [] h = (tt, tt)
  put-Distinct k v ((name, old) ∷ d) h = elim (Bool-cases (same name k)) [
    | inl p ↦ ground arith
    | inr p ↦ ground (arith, put-Absent name k v d p h.0, put-Distinct k v d h.1)
  ]

  remove-Absent : (k name : K) (d : List (K × V)) → Absent k d → Absent k (remove same name d)
  unfolding remove
  remove-Absent k name [] a = tt
  remove-Absent k name ((other, old) ∷ d) a = ground (arith, remove-Absent k name d a.1)

  pub remove-Distinct : (k : K) (d : List (K × V)) → Distinct d → Distinct (remove same k d)
  unfolding remove
  remove-Distinct k [] h = tt
  remove-Distinct k ((name, old) ∷ d) h =
      ground (arith, remove-Absent name k d h.0, remove-Distinct k d h.1)

  pub remove_all-Distinct :
      (ks : List K) (d : List (K × V)) → Distinct d → Distinct (remove_all same ks d)
  unfolding remove_all
  remove_all-Distinct [] d h = h
  remove_all-Distinct (k ∷ ks) d h =
      remove_all-Distinct ks (remove same k d) (remove-Distinct k d h)

  remove_all-cons :
      (ks : List K) (k : K) (v : V) (d : List (K × V))
      → All (λ name. same k name ≡ false) ks
      → remove_all same ks ((k, v) ∷ d) ≡ (k, v) ∷ remove_all same ks d
  unfolding remove_all remove
  remove_all-cons [] k v d h = refl
  remove_all-cons (name ∷ ks) k v d h =
      ground (arith, remove_all-cons ks k v (remove same name d) h.1)

  filter-Absent :
      (p : K × V → Bool) (k : K) (d : List (K × V))
      → Absent k d
      → All (λ name. same k name ≡ false) (map (λ (kv : K × V). kv.0) (filter p d))
  unfolding filter
  filter-Absent p k [] a = tt
  filter-Absent p k ((name, v) ∷ d) a = ground (arith, filter-Absent p k d a.1)

  -- To remove the keys of the elements with a property keeps the other elements.
  pub remove_all-filter :
      (p : K × V → Bool) (d : List (K × V))
      → ((k : K) → same k k ≡ true)
      → Distinct d
      → remove_all same (map (λ (kv : K × V). kv.0) (filter p d)) d ≡ filter (λ kv. not (p kv)) d
  unfolding filter remove_all remove
  remove_all-filter p [] r h = refl
  remove_all-filter p ((k, v) ∷ d) r h =
      let ih = remove_all-filter p d r h.1 in
      elim (Bool-cases (p (k, v))) [
        | inl e ↦ ground (arith, r k)
        | inr e ↦ ground (
          arith,
          remove_all-cons (map (λ (kv : K × V). kv.0) (filter p d)) k v d (filter-Absent p k d h.0),
        )
      ]
