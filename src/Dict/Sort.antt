-- ===== src/Dict/Sort.antt =====
-- What is in a sorted or a filtered list.
use eazy_sdk.Prelude.{
  ◌≡◌, ◌↔◌, ◌⊎◌, inl, inr, ap, Bool, true, Bool-cases, List, [], ◌∷◌, All, arith,
}
use eazy_sdk.Dict.{Mem, insert, sorted, filter}

module _ {A : Type 0} (before : A → A → Bool) where
  pub Mem-insert : (x a : A) (l : List A) → Mem x (insert before a l) ↔ ((x ≡ a) ⊎ Mem x l)
  unfolding insert
  Mem-insert x a [] = (λ h. h, λ h. h)
  Mem-insert x a (y ∷ l) =
      let ih = Mem-insert x a l in
      elim (Bool-cases (before a y)) [ inl p ↦ ground arith | inr p ↦ ground arith ]

  pub Mem-sorted : (x : A) (l : List A) → Mem x (sorted before l) ↔ Mem x l
  unfolding sorted
  Mem-sorted x [] = (λ h. h, λ h. h)
  Mem-sorted x (a ∷ l) =
      let ih = Mem-sorted x l in
      let ins = Mem-insert x a (sorted before l) in
      (
        λ h. elim (ins.0 h) [ inl e ↦ inl e | inr m ↦ inr (ih.0 m) ],
        λ h. ins.1 (elim h [ inl e ↦ inl e | inr m ↦ inr (ih.1 m) ]),
      )

pub Mem-filter :
    {A : Type 0} (p : A → Bool) (x : A) (l : List A) → Mem x (filter p l) ↔ (Mem x l × (p x ≡ true))
unfolding filter
Mem-filter p x [] = (λ h. elim h [ ], λ h. elim h.0 [ ])
Mem-filter p x (y ∷ l) =
    let ih = Mem-filter p x l in
    elim (Bool-cases (p y)) [
      | inl q ↦ ground (arith, λ (e : x ≡ y). ap p e)
      | inr q ↦ ground (arith, λ (e : x ≡ y). ap p e)
    ]

pub All-insert :
    {A : Type 0} (before : A → A → Bool) (P : A → Type 0) (x : A) (l : List A)
    → P x
    → All P l
    → All P (insert before x l)
unfolding insert
All-insert before P x [] px h = (px, tt)
All-insert before P x (y ∷ l) px h = elim (Bool-cases (before x y)) [
  | inl e ↦ ground (arith, px, h)
  | inr e ↦ ground (arith, h.0, All-insert before P x l px h.1)
]
