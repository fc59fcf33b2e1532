-- ===== src/Prelude/Lists.antt =====
-- Lists measured and indexed by native numbers, under the library's names, and predicates on lists.
use Prim.Native.Nat.{ℕ, zero, suc, ◌+◌, ◌<◌}
use mathlib.Core.Path.{◌≡◌, refl, ap}
use mathlib.Core.List.{List, [], ◌∷◌, ◌++◌}
use mathlib.Core.Option.{Option, none, some}
use native.Mathlib.Omega.{arith}

module _ {ℓ} {A : Type ℓ} where
  abbrev pub length : List A → ℕ
  length [] = 0
  length (x ∷ xs) = suc (length xs)

  abbrev pub get_elem? : List A → ℕ → Option A
  get_elem? [] i = none
  get_elem? (x ∷ xs) zero = some x
  get_elem? (x ∷ xs) (suc i) = get_elem? xs i

  -- A write out of bounds changes nothing.
  abbrev pub set : List A → ℕ → A → List A
  set [] i v = []
  set (x ∷ xs) zero v = v ∷ xs
  set (x ∷ xs) (suc i) v = x ∷ set xs i v

  abbrev pub take : ℕ → List A → List A
  take zero xs = []
  take (suc n) [] = []
  take (suc n) (x ∷ xs) = x ∷ take n xs

  abbrev pub replicate : ℕ → A → List A
  replicate zero a = []
  replicate (suc n) a = a ∷ replicate n a

  pub length-append : (xs ys : List A) → length (xs ++ ys) ≡ length xs + length ys
  length-append [] ys = omega arith
  length-append (x ∷ xs) ys = omega (arith, length-append xs ys)

  pub length-replicate : (n : ℕ) (a : A) → length (replicate n a) ≡ n
  length-replicate zero a = refl
  length-replicate (suc n) a = ap suc (length-replicate n a)

module _ {ℓ} {A : Type ℓ} where
  pub length-set : (xs : List A) (i : ℕ) (v : A) → length (set xs i v) ≡ length xs
  length-set [] i v = refl
  length-set (x ∷ xs) zero v = refl
  length-set (x ∷ xs) (suc i) v = ap suc (length-set xs i v)

module _ {ℓ} {A : Type ℓ} where
  pub get_elem?-set_self :
      (l : List A) (i : ℕ) (a : A) → i < length l → get_elem? (set l i a) i ≡ some a
  get_elem?-set_self [] i a h = absurd (omega (arith, h))
  get_elem?-set_self (x ∷ l) zero a h = refl
  get_elem?-set_self (x ∷ l) (suc i) a h = get_elem?-set_self l i a (omega (arith, h))

  pub get_elem?-set_other :
      (l : List A) (i j : ℕ) (a : A) → (i ≡ j → ⊥) → get_elem? (set l i a) j ≡ get_elem? l j
  get_elem?-set_other [] i j a h = refl
  get_elem?-set_other (x ∷ l) zero zero a h = absurd (h refl)
  get_elem?-set_other (x ∷ l) zero (suc j) a h = refl
  get_elem?-set_other (x ∷ l) (suc i) zero a h = refl
  get_elem?-set_other (x ∷ l) (suc i) (suc j) a h = get_elem?-set_other l i j a λ e. h (ap suc e)

  pub get_elem?-replicate : (n i : ℕ) (a : A) → i < n → get_elem? (replicate n a) i ≡ some a
  get_elem?-replicate zero i a h = absurd (omega (arith, h))
  get_elem?-replicate (suc n) zero a h = refl
  get_elem?-replicate (suc n) (suc i) a h = get_elem?-replicate n i a (omega (arith, h))

  pub append_nil : (l : List A) → l ++ [] ≡ l
  append_nil [] = refl
  append_nil (x ∷ l) = ap (λ z. x ∷ z) (append_nil l)

  pub append_one : (l m : List A) (a : A) → (l ++ a ∷ []) ++ m ≡ l ++ a ∷ m
  append_one [] m a = refl
  append_one (x ∷ l) m a = ap (λ z. x ∷ z) (append_one l m a)

-- Every element has the property.
abbrev pub All {ℓ ℓ'} : {A : Type ℓ} → (A → Type ℓ') → List A → Type ℓ'
All P [] = Unit
All P (first ∷ rest) = P first × All P rest

pub All-append {ℓ ℓ'} :
    {A : Type ℓ} (P : A → Type ℓ') (front back : List A)
    → All P front
    → All P back
    → All P (front ++ back)
All-append P [] back h h' = h'
All-append P (first ∷ rest) back h h' = (h.0, All-append P rest back h.1 h')
