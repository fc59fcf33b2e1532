-- ===== src/Kernel/Graph/Edges.antt =====
-- The edges that the first two loops of `compile_graph` collect_edges.
use eazy_sdk.Prelude.{
  ℕ, ◌≤◌, ◌≡◌, ◌≢◌, refl, sym, subst, true, some, List, [], ◌∷◌, ◌++◌, ◌==◌, ltb, All, Bool-cases,
  Option-cases, inl, inr, arith, is_some,
}
use eazy_sdk.Prelude.Outcome.{ok}
use eazy_sdk.Dict.{lookup}
use eazy_sdk.Kernel.Graph.{Node, Edge, targets, find_node, add_edge, after_edges, read_edges}
use eazy_sdk.Kernel.Graph.Counts.{occ, occ-append}

targets-append : (a b : List Edge) (u : ℕ) → targets (a ++ b) u ≡ targets a u ++ targets b u
unfolding targets
targets-append [] b u = refl
targets-append ((v, n) ∷ a) b u = ground (arith, targets-append a b u)

pub find_node-occ : (l : List Node) (v : ℕ) → is_some (find_node l v) ≡ true → 1 ≤ occ v l
unfolding find_node
find_node-occ [] v h = absurd (ground (arith, h))
find_node-occ (n ∷ l) v h = ground (arith, h, find_node-occ l v)

-- Later edges: all there were, and others whose targets are nodes.
pub record Adds (nodes : List Node) (edges more : List Edge) : Type 0 where
  pub kept : (u v : ℕ) → occ v (targets edges u) ≤ occ v (targets more u)
  pub inside :
      (u v : ℕ) → occ v nodes ≡ 0 → occ v (targets edges u) ≡ 0 → occ v (targets more u) ≡ 0

module _ (nodes : List Node) where
  pub Adds-refl : (edges : List Edge) → Adds nodes edges edges
  Adds-refl edges = record { kept = λ u v. omega arith; inside = λ u v z h. h }

  pub Adds-trans : (a b c : List Edge) → Adds nodes a b → Adds nodes b c → Adds nodes a c
  Adds-trans a b c h k = record {
    kept = λ u v. omega (arith, h.kept u v, k.kept u v);
    inside = λ u v z e. k.inside u v z (h.inside u v z e);
  }

  add_edge-Adds :
      (u : ℕ) (n : Node) (edges : List Edge)
      → 1 ≤ occ n.identity nodes
      → Adds nodes edges (add_edge u n edges)
  unfolding add_edge targets
  add_edge-Adds u n edges m = elim (Bool-cases (is_some (find_node (targets edges u) n.identity))) [
    | inl e ↦
        let same : add_edge u n edges ≡ edges = ground (arith, e) in
        subst (λ z. Adds nodes edges z) (sym same) (Adds-refl edges)
    | inr e ↦
        let grown : add_edge u n edges ≡ edges ++ (u, n) ∷ [] = ground (arith, e) in
        subst (λ z. Adds nodes edges z) (sym grown)
          (record {
            kept = λ x v. ground (
              arith,
              targets-append edges ((u, n) ∷ []) x,
              occ-append v (targets edges x) (targets ((u, n) ∷ []) x),
            );
            inside = λ x v z h. ground (
              arith,
              m,
              z,
              h,
              targets-append edges ((u, n) ∷ []) x,
              occ-append v (targets edges x) (targets ((u, n) ∷ []) x),
            );
          })
  ]

add_edge-there :
    (u : ℕ) (n : Node) (edges : List Edge) → 1 ≤ occ n.identity (targets (add_edge u n edges) u)
unfolding add_edge targets
add_edge-there u n edges = elim (Bool-cases (is_some (find_node (targets edges u) n.identity))) [
  | inl e ↦ ground (arith, e, find_node-occ (targets edges u) n.identity e)
  | inr e ↦ ground (
    arith,
    e,
    targets-append edges ((u, n) ∷ []) u,
    occ-append n.identity (targets edges u) (targets ((u, n) ∷ []) u),
  )
]

pub find_node-identity :
    (l : List Node) (v : ℕ) (n : Node) → find_node l v ≡ some n → n.identity ≡ v
unfolding find_node
find_node-identity [] v n h = absurd (ground (arith, h))
find_node-identity (x ∷ l) v n h = elim (Bool-cases (x.identity == v)) [
  | inl e ↦ ground (arith, h, e)
  | inr e ↦ find_node-identity l v n (ground (arith, h, e))
]

-- All of the names are sources of edges to the node.
abbrev pub Linked : List Edge → Node → List ℕ → Type 0
Linked edges node names = All (λ u. 1 ≤ occ node.identity (targets edges u)) names

pub Linked-Adds :
    (nodes : List Node) (edges more : List Edge) (node : Node) (names : List ℕ)
    → Adds nodes edges more
    → Linked edges node names
    → Linked more node names
Linked-Adds nodes edges more node [] a h = tt
Linked-Adds nodes edges more node (u ∷ names) a h =
    (omega (arith, a.kept u node.identity, h.0), Linked-Adds nodes edges more node names a h.1)

-- The nodes that write the slots that a node reads are sources of edges to it, itself apart.
abbrev pub FedSlot : List (ℕ × Node) → List Edge → Node → ℕ → Type 0
FedSlot producer edges node slot =
    (source : Node)
    → lookup ◌==◌ slot producer ≡ some source
    → source.identity ≢ node.identity
    → 1 ≤ occ node.identity (targets edges source.identity)

abbrev pub Fed : List (ℕ × Node) → List Edge → Node → List ℕ → Type 0
Fed producer edges node slots = All (FedSlot producer edges node) slots

module _ (nodes : List Node) (node : Node) (member : 1 ≤ occ node.identity nodes) where
  pub after_edges-Adds :
      (names : List ℕ) (edges more : List Edge)
      → after_edges nodes node names edges ≡ ok more
      → Adds nodes edges more × Linked more node names
  unfolding after_edges
  after_edges-Adds [] edges more h =
      (subst (λ z. Adds nodes edges z) (ground (arith, h)) (Adds-refl nodes edges), tt)
  after_edges-Adds (i ∷ names) edges more h = elim (Option-cases (find_node nodes i)) [
    | inl n ↦ absurd (ground (arith, h, n))
    | inr d ↦ elim (Bool-cases (ltb node.kind d.0.kind)) [
      | inl e ↦ absurd (ground (arith, h, d.1, e))
      | inr e ↦
          let ih =
            after_edges-Adds names (add_edge d.0.identity node edges) more
              (ground (arith, h, d.1, e)) in
          let here : 1 ≤ occ node.identity (targets (add_edge d.0.identity node edges) i) =
            subst (λ u. 1 ≤ occ node.identity (targets (add_edge d.0.identity node edges) u))
              (find_node-identity nodes i d.0 d.1) (add_edge-there d.0.identity node edges) in
          (
            Adds-trans nodes edges (add_edge d.0.identity node edges) more
                (add_edge-Adds nodes d.0.identity node edges member) ih.0,
            (omega (arith, here, ih.0.kept i node.identity), ih.1),
          )
    ]
  ]

  pub read_edges-Adds :
      (producer : List (ℕ × Node)) (slots : List ℕ) (edges more : List Edge)
      → read_edges producer node slots edges ≡ ok more
      → Adds nodes edges more × Fed producer more node slots
  unfolding read_edges
  read_edges-Adds producer [] edges more h =
      (subst (λ z. Adds nodes edges z) (ground (arith, h)) (Adds-refl nodes edges), tt)
  read_edges-Adds producer (slot ∷ slots) edges more h =
      elim (Option-cases (lookup ◌==◌ slot producer)) [
        | inl n ↦
            let ih = read_edges-Adds producer slots edges more (ground (arith, h, n)) in
            (ih.0, (λ source e apart. ground (arith, n, e), ih.1))
        | inr s ↦ elim (Bool-cases (s.0.identity == node.identity)) [
          | inl e ↦
              let ih = read_edges-Adds producer slots edges more (ground (arith, h, s.1, e)) in
              (ih.0, (λ source e' apart. ground (arith, s.1, e, e', apart), ih.1))
          | inr e ↦ elim (Bool-cases (ltb node.kind s.0.kind)) [
            | inl k ↦ absurd (ground (arith, h, s.1, e, k))
            | inr k ↦
                let ih =
                  read_edges-Adds producer slots (add_edge s.0.identity node edges) more
                    (ground (arith, h, s.1, e, k)) in
                (
                  Adds-trans nodes edges (add_edge s.0.identity node edges) more
                      (add_edge-Adds nodes s.0.identity node edges member) ih.0,
                  (
                    λ source e' apart.
                        let same : s.0.identity ≡ source.identity = ground (arith, s.1, e') in
                        subst (λ u. 1 ≤ occ node.identity (targets more u)) same
                          (omega (
                            arith,
                            add_edge-there s.0.identity node edges,
                            ih.0.kept s.0.identity node.identity,
                          )),
                    ih.1,
                  ),
                )
          ]
        ]
      ]
