-- ===== src/Kernel/Graph/Counts.antt =====
-- How often a node stands in a list, and how many edges to a node still hold it back.
use eazy_sdk.Prelude.{
  ℕ, suc, ◌+◌, ◌≡◌, refl, ap, Bool, true, false, List, [], ◌∷◌, ◌++◌, ◌==◌, elem, map,
  if◌then◌else◌, Bool-cases, inl, inr, arith,
}
use eazy_sdk.Dict.{sorted, insert, filter}
use eazy_sdk.Kernel.Graph.{Node, Edge, targets, indegrees, raise_at}

abbrev pub occ : ℕ → List Node → ℕ
occ v [] = 0
occ v (n ∷ rest) = if n.identity == v then suc (occ v rest) else occ v rest

-- The edges to a node whose source is not among the ones done.
abbrev pub pend : List Edge → List ℕ → ℕ → ℕ
pend [] done v = 0
pend ((u, w) ∷ edges) done v =
    if w.identity == v
    then if elem u done then pend edges done v else suc (pend edges done v)
    else pend edges done v

abbrev pub ids : List Node → List ℕ
ids nodes = map (λ (n : Node). n.identity) nodes

pub occ-append : (v : ℕ) (a b : List Node) → occ v (a ++ b) ≡ occ v a + occ v b
occ-append v [] b = omega arith
occ-append v (n ∷ a) b = ground (arith, occ-append v a b)

module _ (less : Node → Node → Bool) where
  occ-insert : (v : ℕ) (n : Node) (l : List Node) → occ v (insert less n l) ≡ occ v (n ∷ l)
  unfolding insert
  occ-insert v n [] = refl
  occ-insert v n (x ∷ l) = ground (arith, occ-insert v n l)

  pub occ-sorted : (v : ℕ) (l : List Node) → occ v (sorted less l) ≡ occ v l
  unfolding sorted
  occ-sorted v [] = refl
  occ-sorted v (n ∷ l) = ground (arith, occ-insert v n (sorted less l), occ-sorted v l)

pub occ-filter :
    (p : ℕ → Bool) (v : ℕ) (l : List Node)
    → occ v (filter (λ (n : Node). p n.identity) l) ≡ (if p v then occ v l else 0)
unfolding filter
occ-filter p v [] = ground arith
occ-filter p v (n ∷ l) = elim (Bool-cases (n.identity == v)) [
  | inl e ↦
      let same : p n.identity ≡ p v = ap p (ground (arith, e)) in
      ground (arith, occ-filter p v l, e, same)
  | inr e ↦ ground (arith, occ-filter p v l, e)
]

pub indegrees-pend : (edges : List Edge) (v : ℕ) → indegrees edges v ≡ pend edges [] v
unfolding indegrees raise_at
indegrees-pend [] v = refl
indegrees-pend ((u, w) ∷ edges) v = ground (arith, indegrees-pend edges v)

pub elem-append : (a : ℕ) (l m : List ℕ) → elem a (l ++ m) ≡ (if elem a l then true else elem a m)
elem-append a [] m = refl
elem-append a (x ∷ l) m = ground (arith, elem-append a l m)

-- A node that is done holds its targets back no longer.
pub pend-append :
    (edges : List Edge) (done : List ℕ) (u v : ℕ)
    → elem u done ≡ false
    → pend edges done v ≡ pend edges (done ++ u ∷ []) v + occ v (targets edges u)
unfolding targets
pend-append [] done u v h = omega arith
pend-append ((a, w) ∷ edges) done u v h = elim (Bool-cases (a == u)) [
  | inl e ↦
      let same : elem a done ≡ elem u done = ap (λ x. elem x done) (ground (arith, e)) in
      ground (arith, pend-append edges done u v h, elem-append a done (u ∷ []), h, same, e)
  | inr e ↦ ground (arith, pend-append edges done u v h, elem-append a done (u ∷ []), e)
]
