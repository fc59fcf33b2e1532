-- ===== src/Dict.antt =====
-- Python's `dict`: an association list in the order of insertion, and `sorted` with a key.
pub mod Distinct
pub mod Every
pub mod Sort
use eazy_sdk.Prelude.{◌≡◌, Bool, Option, none, some, List, [], ◌∷◌, if◌then◌else◌, ◌⊎◌}

-- `x` is an element of a list.
abbrev pub Mem : {A : Type 0} → A → List A → Type 0
Mem x [] = ⊥
Mem x (y ∷ l) = (x ≡ y) ⊎ Mem x l

module _ {K V : Type 0} (same : K → K → Bool) where
  unfoldable pub lookup : K → List (K × V) → Option V
  lookup k [] = none
  lookup k ((name, v) ∷ rest) = let more = lookup k rest in if same name k then some v else more

  -- `d[k] = v`: a key that is there keeps its place.
  unfoldable pub put : K → V → List (K × V) → List (K × V)
  put k v [] = (k, v) ∷ []
  put k v ((name, old) ∷ rest) =
      let more = put k v rest in if same name k then (name, v) ∷ rest else (name, old) ∷ more

  -- `d.pop(k, None)`
  unfoldable pub remove : K → List (K × V) → List (K × V)
  remove k [] = []
  remove k ((name, old) ∷ rest) =
      let more = remove k rest in if same name k then rest else (name, old) ∷ more

  unfoldable pub remove_all : List K → List (K × V) → List (K × V)
  unfolding remove
  remove_all [] d = d
  remove_all (k ∷ ks) d = remove_all ks (remove k d)

module _ {A : Type 0} (before : A → A → Bool) where
  unfoldable pub insert : A → List A → List A
  insert x [] = x ∷ []
  insert x (y ∷ l) = let more = insert x l in if before x y then x ∷ y ∷ l else y ∷ more

  -- A stable sort: of two elements each of which may stand before the other, the earlier one does.
  unfoldable pub sorted : List A → List A
  unfolding insert
  sorted [] = []
  sorted (x ∷ l) = insert x (sorted l)

unfoldable pub filter : {A : Type 0} → (A → Bool) → List A → List A
filter p [] = []
filter p (x ∷ l) = let rest = filter p l in if p x then x ∷ rest else rest
