-- ===== src/Kernel/Graph/Loop.antt =====
-- The loop of `compile_graph`: what holds each time it turns, and that it ends.
use eazy_sdk.Prelude.{
  ℕ, suc, ◌+◌, ◌≤◌, ◌≡◌, refl, ap, false, List, [], ◌∷◌, ◌++◌, ◌==◌, elem, if◌then◌else◌, length,
  Bool-cases, inl, inr, arith,
}
use eazy_sdk.Dict.{sorted}
use eazy_sdk.Kernel.Graph.{Node, Edge, release, lower_at, before}
use eazy_sdk.Kernel.Graph.Counts.{occ, pend, ids, occ-append, occ-sorted}

pub ids-snoc : (l : List Node) (n : Node) → ids (l ++ n ∷ []) ≡ ids l ++ n.identity ∷ []
ids-snoc [] n = refl
ids-snoc (x ∷ l) n = ap (λ z. x.identity ∷ z) (ids-snoc l n)

pub elem-ids : (v : ℕ) (l : List Node) → occ v l ≡ 0 → elem v (ids l) ≡ false
elem-ids v [] h = refl
elem-ids v (n ∷ l) h = ground (arith, h, elem-ids v l)

remove_node : ℕ → List Node → List Node
remove_node v [] = []
remove_node v (n ∷ l) = let rest = remove_node v l in if n.identity == v then l else n ∷ rest

occ-remove_node :
    (v w : ℕ) (l : List Node)
    → 0 + 1 ≤ occ v l
    → occ w l ≡ (if v == w then suc (occ w (remove_node v l)) else occ w (remove_node v l))
unfolding remove_node
occ-remove_node v w [] h = absurd (omega (arith, h))
occ-remove_node v w (n ∷ l) h = elim (Bool-cases (n.identity == v)) [
  | inl e ↦ ground (arith, e)
  | inr e ↦ ground (arith, e, occ-remove_node v w l (ground (arith, h, e)))
]

length-remove_node :
    (v : ℕ) (l : List Node) → 0 + 1 ≤ occ v l → length l ≡ suc (length (remove_node v l))
unfolding remove_node
length-remove_node v [] h = absurd (omega (arith, h))
length-remove_node v (n ∷ l) h = elim (Bool-cases (n.identity == v)) [
  | inl e ↦ ground (arith, e)
  | inr e ↦ ground (arith, e, length-remove_node v l (ground (arith, h, e)))
]

-- A list whose nodes all stand in another, as often, is no longer.
pub length-occ-le : (a b : List Node) → ((v : ℕ) → occ v a ≤ occ v b) → length a ≤ length b
length-occ-le [] b h = omega arith
length-occ-le (n ∷ a) b h =
    let there : 0 + 1 ≤ occ n.identity b = ground (arith, h n.identity) in
    let ih =
      length-occ-le a (remove_node n.identity b)
        λ w. ground (arith, h w, occ-remove_node n.identity w b there) in
    omega (arith, ih, length-remove_node n.identity b there)

-- The nodes of a list have all their sources before them.
abbrev pub Ordered : List Edge → List ℕ → List Node → Type 0
Ordered edges done [] = Unit
Ordered edges done (n ∷ rest) =
    (pend edges done n.identity ≡ 0) × Ordered edges (done ++ n.identity ∷ []) rest

-- Between two targets of a node: the result, the ready nodes, the degrees and the targets left.
pub record Turn (edges : List Edge) (nodes result ready : List Node) (indegree : ℕ → ℕ)
    (left : List Node) : Type 0 where
  pub counted : (v : ℕ) → indegree v ≡ pend edges (ids result) v + occ v left
  pub split : (v : ℕ) → occ v result + occ v ready ≡ (if indegree v == 0 then occ v nodes else 0)

module _ (edges : List Edge) (nodes : List Node) (once : (v : ℕ) → occ v nodes ≤ 1) where
  pub release-Turn :
      (result ready left : List Node) (indegree : ℕ → ℕ)
      → ((v : ℕ) → occ v nodes ≡ 0 → occ v left ≡ 0)
      → Turn edges nodes result ready indegree left
      → Turn edges nodes result (release left ready indegree).0 (release left ready indegree).1 []
  unfolding release lower_at
  release-Turn result ready [] indegree within h = h
  release-Turn result ready (t ∷ left) indegree within h =
      let known : occ t.identity nodes ≡ 1 = ground (arith, once t.identity, within t.identity) in
      release-Turn result
        (if lower_at t.identity indegree t.identity == 0
          then sorted before (ready ++ t ∷ [])
          else ready)
        left (lower_at t.identity indegree) (λ v z. ground (arith, within v z))
        record {
          counted = λ v. ground (arith, h.counted v);
          split = λ v. ground (
            arith,
            h.counted v,
            h.split v,
            known,
            occ-sorted before v (ready ++ t ∷ []),
            occ-append v ready (t ∷ []),
          );
        }
