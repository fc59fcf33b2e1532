-- ===== src/Cookies/Counting.antt =====
-- How many elements a sort, a prefix and the removal of keys leave.
use eazy_sdk.Prelude.{
  ℕ, zero, suc, ◌+◌, ◌≤◌, ◌≡◌, refl, sym, ◌∙◌, ap, subst, Bool, true, false, List, [], ◌∷◌, map,
  arith, inl, inr, Bool-cases, length, take,
}
use eazy_sdk.Dict.{Mem, remove, remove_all, sorted, insert}
use eazy_sdk.Dict.Sort.{Mem-insert, Mem-sorted}

pub true_or_false : (b : Bool) → b ≡ true → b ≡ false → ⊥
true_or_false b p q = ground arith

-- The elements of a list are distinct.
abbrev pub NoRepeat : {A : Type 0} → List A → Type 0
NoRepeat [] = Unit
NoRepeat (x ∷ l) = (Mem x l → ⊥) × NoRepeat l

module _ {A : Type 0} (before : A → A → Bool) where
  length-insert : (x : A) (l : List A) → length (insert before x l) ≡ suc (length l)
  unfolding insert
  length-insert x [] = refl
  length-insert x (y ∷ l) = ground (arith, length-insert x l)

  pub length-sorted : (l : List A) → length (sorted before l) ≡ length l
  unfolding sorted
  length-sorted [] = refl
  length-sorted (x ∷ l) = ground (arith, length-insert x (sorted before l), length-sorted l)

  insert-NoRepeat : (x : A) (l : List A) → (Mem x l → ⊥) → NoRepeat l → NoRepeat (insert before x l)
  unfolding insert
  insert-NoRepeat x [] n h = (n, tt)
  insert-NoRepeat x (y ∷ l) n h = elim (Bool-cases (before x y)) [
    | inl e ↦ ground (arith, n, h)
    | inr e ↦
        let apart : Mem y (insert before x l) → ⊥ =
          λ m. elim ((Mem-insert before y x l).0 m) [ inl q ↦ n (inl (sym q)) | inr q ↦ h.0 q ] in
        ground (arith, apart, insert-NoRepeat x l (λ m. n (inr m)) h.1)
  ]

  pub sorted-NoRepeat : (l : List A) → NoRepeat l → NoRepeat (sorted before l)
  unfolding sorted
  sorted-NoRepeat [] h = tt
  sorted-NoRepeat (x ∷ l) h =
      insert-NoRepeat x (sorted before l) (λ m. h.0 ((Mem-sorted before x l).0 m))
        (sorted-NoRepeat l h.1)

pub Mem-take : {A : Type 0} (n : ℕ) (x : A) (l : List A) → Mem x (take n l) → Mem x l
Mem-take zero x l m = elim m [ ]
Mem-take (suc n) x [] m = elim m [ ]
Mem-take (suc n) x (y ∷ l) (inl e) = inl e
Mem-take (suc n) x (y ∷ l) (inr m) = inr (Mem-take n x l m)

pub take-NoRepeat : {A : Type 0} (n : ℕ) (l : List A) → NoRepeat l → NoRepeat (take n l)
take-NoRepeat zero l h = tt
take-NoRepeat (suc n) [] h = tt
take-NoRepeat (suc n) (x ∷ l) h = (λ m. h.0 (Mem-take n x l m), take-NoRepeat n l h.1)

pub length-take : {A : Type 0} (n : ℕ) (l : List A) → n ≤ length l → length (take n l) ≡ n
length-take zero l h = refl
length-take (suc n) [] h = omega (arith, h)
length-take (suc n) (x ∷ l) h = ap suc (length-take n l (omega (arith, h)))

module _ {K V : Type 0} (same : K → K → Bool) (eq : (k name : K) → same k name ≡ true → k ≡ name)
    (reflexive : (k : K) → same k k ≡ true) where
  abbrev pub keys_of : List (K × V) → List K
  keys_of d = map (λ (kv : K × V). kv.0) d

  -- A key that is there is removed, and one element with it.
  length-remove :
      (k : K) (d : List (K × V)) → Mem k (keys_of d) → suc (length (remove same k d)) ≡ length d
  unfolding remove
  length-remove k [] m = elim m [ ]
  length-remove k ((name, v) ∷ d) m = elim (Bool-cases (same name k)) [
    | inl e ↦ ground arith
    | inr e ↦ elim m [
      | inl q ↦
          absurd (
            true_or_false (same name k) (subst (λ z. same name z ≡ true) (sym q) (reflexive name))
              e)
      | inr q ↦ ground (arith, length-remove k d q)
    ]
  ]

  -- Another key stays.
  Mem-remove :
      (k name : K) (d : List (K × V))
      → (name ≡ k → ⊥)
      → Mem name (keys_of d)
      → Mem name (keys_of (remove same k d))
  unfolding remove
  Mem-remove k name [] n m = elim m [ ]
  Mem-remove k name ((other, v) ∷ d) n m = elim (Bool-cases (same other k)) [
    | inl e ↦ elim m [
      | inl q ↦ absurd (n (q ∙ eq other k e))
      | inr q ↦
          let gone : remove same k ((other, v) ∷ d) ≡ d = ground arith in
          subst (λ z. Mem name (keys_of z)) (sym gone) q
    ]
    | inr e ↦ elim m [ inl q ↦ ground (arith, q) | inr q ↦ ground (arith, Mem-remove k name d n q) ]
  ]

  pub length-remove_all :
      (ks : List K) (d : List (K × V))
      → NoRepeat ks
      → ((k : K) → Mem k ks → Mem k (keys_of d))
      → length (remove_all same ks d) + length ks ≡ length d
  unfolding remove_all
  length-remove_all [] d n h = omega arith
  length-remove_all (k ∷ ks) d n h =
      let gone = length-remove k d (h k (inl refl)) in
      let ih =
        length-remove_all ks (remove same k d) n.1
          λ name m. Mem-remove k name d (λ q. n.0 (subst (λ z. Mem z ks) q m)) (h name (inr m)) in
      omega (arith, gone, ih)
