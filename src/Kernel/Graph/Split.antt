-- ===== src/Kernel/Graph/Split.antt =====
-- Distinct nodes, and the places of the nodes in an ordered list.
use eazy_sdk.Prelude.{
  append_nil, append_one, ℕ, ◌≤◌, ◌≡◌, refl, sym, subst, true, false, List, [], ◌∷◌, ◌++◌, ◌==◌,
  elem, Bool-cases, inl, inr, arith, is_some,
}
use eazy_sdk.Kernel.Graph.{Node, Edge, targets, find_node, has_duplicate}
use eazy_sdk.Kernel.Graph.Counts.{occ, pend, ids}
use eazy_sdk.Kernel.Graph.Loop.{Ordered}
use eazy_sdk.Kernel.Graph.Collect.{Among}

find_node_none : (l : List Node) (v : ℕ) → is_some (find_node l v) ≡ false → occ v l ≡ 0
unfolding find_node
find_node_none [] v h = refl
find_node_none (n ∷ l) v h = ground (arith, h, find_node_none l v)

-- Without a duplicate every identity stands at most once.
pub has_duplicate_none :
    (nodes : List Node) → has_duplicate nodes ≡ false → (v : ℕ) → occ v nodes ≤ 1
unfolding has_duplicate
has_duplicate_none [] h v = omega arith
has_duplicate_none (n ∷ nodes) h v = elim (Bool-cases (is_some (find_node nodes n.identity))) [
  | inl e ↦ absurd (ground (arith, h, e))
  | inr e ↦
      let alone = find_node_none nodes n.identity e in
      let ih = has_duplicate_none nodes (ground (arith, h, e)) v in
      elim (Bool-cases (n.identity == v)) [
        | inl q ↦
            let same : n.identity ≡ v = ground (arith, q) in
            let gone : occ v nodes ≡ 0 = subst (λ z. occ z nodes ≡ 0) same alone in
            ground (arith, gone, q)
        | inr q ↦ ground (arith, ih, q)
      ]
]

pub Among-self : (nodes rest : List Node) → ((v : ℕ) → occ v rest ≤ occ v nodes) → Among nodes rest
Among-self nodes [] h = tt
Among-self nodes (n ∷ rest) h =
    (ground (arith, h n.identity), Among-self nodes rest λ v. ground (arith, h v))

-- A node without pending edges has its sources among the ones done.
pub pend-zero :
    (edges : List Edge) (done : List ℕ) (u v : ℕ)
    → pend edges done v ≡ 0
    → 1 ≤ occ v (targets edges u)
    → elem u done ≡ true
unfolding targets
pend-zero [] done u v p h = absurd (ground (arith, h))
pend-zero ((a, w) ∷ edges) done u v p h = elim (Bool-cases (a == u)) [
  | inr e ↦ pend-zero edges done u v (ground (arith, p)) (ground (arith, h, e))
  | inl e ↦ elim (Bool-cases (w.identity == v)) [
    | inr q ↦ pend-zero edges done u v (ground (arith, p, q)) (ground (arith, h, e, q))
    | inl q ↦ elim (Bool-cases (elem a done)) [
      | inl m ↦ subst (λ z. elem z done ≡ true) (ground (arith, e)) m
      | inr m ↦ absurd (ground (arith, p, q, m))
    ]
  ]
]

pub Ordered-split :
    (edges : List Edge) (done : List ℕ) (l : List Node) (front back : List ℕ) (v : ℕ)
    → Ordered edges done l
    → ids l ≡ front ++ v ∷ back
    → pend edges (done ++ front) v ≡ 0
Ordered-split edges done [] [] back v o e = absurd (ground (arith, e))
Ordered-split edges done [] (x ∷ front) back v o e = absurd (ground (arith, e))
Ordered-split edges done (n ∷ l) [] back v o e =
    subst (λ z. pend edges z v ≡ 0) (sym (append_nil done))
      (subst (λ z. pend edges done z ≡ 0) (ground (arith, e)) o.0)
Ordered-split edges done (n ∷ l) (x ∷ front) back v o e =
    let ih = Ordered-split edges (done ++ n.identity ∷ []) l front back v o.1 (ground (arith, e)) in
    let moved : pend edges (done ++ n.identity ∷ front) v ≡ 0 =
      subst (λ z. pend edges z v ≡ 0) (append_one done front n.identity) ih in
    subst (λ z. pend edges (done ++ z ∷ front) v ≡ 0) (ground (arith, e)) moved
