-- ===== src/Kernel/Graph/Ranked.antt =====
-- Edges along which a rank grows, and what the loops over the nodes make of them.
use eazy_sdk.Prelude.{
  ℕ, ◌≤◌, ◌<◌, ◌≡◌, refl, sym, subst, some, List, [], ◌∷◌, ◌++◌, ◌==◌, ltb, All, All-append,
  Bool-cases, Option-cases, inl, inr, arith, is_some,
}
use eazy_sdk.Prelude.Outcome.{ok, Outcome-cases}
use eazy_sdk.Dict.{Mem, lookup}
use eazy_sdk.Kernel.Graph.{
  Node, Edge, targets, find_node, add_edge, after_edges, claim_writes, collect_edges, read_edges,
  collect_reads,
}
use eazy_sdk.Kernel.Graph.Counts.{occ}
use eazy_sdk.Kernel.Graph.Edges.{find_node-occ, find_node-identity}
use eazy_sdk.Kernel.Graph.Order.{Needs}

Mem-occ : (l : List Node) (n : Node) → Mem n l → 1 ≤ occ n.identity l
Mem-occ [] n m = elim m [ ]
Mem-occ (x ∷ l) n (inl e) = subst (λ (z : Node). 1 ≤ occ z.identity (x ∷ l)) (sym e) (ground arith)
Mem-occ (x ∷ l) n (inr m) = ground (arith, Mem-occ l n m)

-- The owner of each slot in the table is a node that writes it.
abbrev pub Owned : List Node → List (ℕ × Node) → Type 0
Owned nodes producer = All (λ (p : ℕ × Node). Mem p.1 nodes × Mem p.0 p.1.writes) producer

module _ (nodes : List Node) (rank : ℕ → ℕ) where
  abbrev pub Climbs : Edge → Type 0
  Climbs e = (rank e.0 < rank e.1.identity) × (1 ≤ occ e.0 nodes)

  add_edge-Climbs :
      (u : ℕ) (n : Node) (edges : List Edge)
      → Climbs (u, n)
      → All Climbs edges
      → All Climbs (add_edge u n edges)
  unfolding add_edge
  add_edge-Climbs u n edges c h =
      elim (Bool-cases (is_some (find_node (targets edges u) n.identity))) [
        | inl e ↦ subst (All Climbs) (ground (arith, e)) h
        | inr e ↦
            let grown : edges ++ (u, n) ∷ [] ≡ add_edge u n edges = ground (arith, e) in
            subst (All Climbs) grown (All-append Climbs edges ((u, n) ∷ []) h (c, tt))
      ]

  after_edges-Climbs :
      (node : Node) (names : List ℕ) (edges more : List Edge)
      → ((u : ℕ) → Mem u names → rank u < rank node.identity)
      → after_edges nodes node names edges ≡ ok more
      → All Climbs edges
      → All Climbs more
  unfolding after_edges
  after_edges-Climbs node [] edges more r h a = subst (All Climbs) (ground (arith, h)) a
  after_edges-Climbs node (i ∷ names) edges more r h a = elim (Option-cases (find_node nodes i)) [
    | inl n ↦ absurd (ground (arith, h, n))
    | inr d ↦ elim (Bool-cases (ltb node.kind d.0.kind)) [
      | inl k ↦ absurd (ground (arith, h, d.1, k))
      | inr k ↦
          let same = find_node-identity nodes i d.0 d.1 in
          let known : 1 ≤ occ i nodes = find_node-occ nodes i (ground (arith, d.1)) in
          let climbs : Climbs (d.0.identity, node) =
            subst (λ x. Climbs (x, node)) (sym same) (r i (inl refl), known) in
          after_edges-Climbs node names (add_edge d.0.identity node edges) more (λ u m. r u (inr m))
            (ground (arith, h, d.1, k)) (add_edge-Climbs d.0.identity node edges climbs a)
    ]
  ]

  claim_writes-Owned :
      (node : Node) (slots : List ℕ) (producer later : List (ℕ × Node))
      → Mem node nodes
      → ((slot : ℕ) → Mem slot slots → Mem slot node.writes)
      → claim_writes node slots producer ≡ ok later
      → Owned nodes producer
      → Owned nodes later
  unfolding claim_writes
  claim_writes-Owned node [] producer later m w h o = subst (Owned nodes) (ground (arith, h)) o
  claim_writes-Owned node (slot ∷ slots) producer later m w h o =
      elim (Option-cases (lookup ◌==◌ slot producer)) [
        | inr s ↦ absurd (ground (arith, h, s.1))
        | inl n ↦
            claim_writes-Owned node slots ((slot, node) ∷ producer) later m (λ x k. w x (inr k))
              (ground (arith, h, n)) ((m, w slot (inl refl)), o)
      ]

  lookup-Owned :
      (producer : List (ℕ × Node)) (slot : ℕ) (s : Node)
      → Owned nodes producer
      → lookup ◌==◌ slot producer ≡ some s
      → Mem s nodes × Mem slot s.writes
  unfolding lookup
  lookup-Owned [] slot s o h = absurd (ground (arith, h))
  lookup-Owned ((x, n) ∷ producer) slot s o h = elim (Bool-cases (x == slot)) [
    | inr e ↦ lookup-Owned producer slot s o.1 (ground (arith, h, e))
    | inl e ↦
        let owner : n ≡ s = ground (arith, h, e) in
        let place : x ≡ slot = ground (arith, e) in
        (
          subst (λ z. Mem z nodes) owner o.0.0,
          subst (λ (z : Node). Mem slot z.writes) owner (subst (λ z. Mem z n.writes) place o.0.1),
        )
  ]

  read_edges-Climbs :
      (producer : List (ℕ × Node)) (node : Node) (slots : List ℕ) (edges more : List Edge)
      → Owned nodes producer
      → ((u : ℕ) → Needs nodes node u → rank u < rank node.identity)
      → ((slot : ℕ) → Mem slot slots → Mem slot node.reads)
      → read_edges producer node slots edges ≡ ok more
      → All Climbs edges
      → All Climbs more
  unfolding read_edges
  read_edges-Climbs producer node [] edges more o r w h a = subst (All Climbs) (ground (arith, h)) a
  read_edges-Climbs producer node (slot ∷ slots) edges more o r w h a =
      elim (Option-cases (lookup ◌==◌ slot producer)) [
        | inl n ↦
            read_edges-Climbs producer node slots edges more o r (λ x k. w x (inr k))
              (ground (arith, h, n)) a
        | inr s ↦ elim (Bool-cases (s.0.identity == node.identity)) [
          | inl q ↦
              read_edges-Climbs producer node slots edges more o r (λ x k. w x (inr k))
                (ground (arith, h, s.1, q)) a
          | inr q ↦ elim (Bool-cases (ltb node.kind s.0.kind)) [
            | inl k ↦ absurd (ground (arith, h, s.1, q, k))
            | inr k ↦
                let owner = lookup-Owned producer slot s.0 o s.1 in
                let needed : Needs nodes node s.0.identity = inr (
                  s.0,
                  slot,
                  owner.0,
                  refl,
                  λ e. ground (arith, q, e),
                  owner.1,
                  w slot (inl refl),
                ) in
                read_edges-Climbs producer node slots (add_edge s.0.identity node edges) more o r
                  (λ x k'. w x (inr k')) (ground (arith, h, s.1, q, k))
                  (add_edge-Climbs s.0.identity node edges
                    (r s.0.identity needed, Mem-occ nodes s.0 owner.0) a)
          ]
        ]
      ]

  -- The rank of a node is above the ranks of the nodes that it needs.
  abbrev pub RankGrows : List Node → Type 0
  RankGrows rest = All (λ (n : Node). (u : ℕ) → Needs nodes n u → rank u < rank n.identity) rest

  pub collect_edges-Climbs :
      (rest : List Node) (edges : List Edge) (producer : List (ℕ × Node))
      (out : List Edge × List (ℕ × Node))
      → ((n : Node) → Mem n rest → Mem n nodes)
      → RankGrows rest
      → collect_edges nodes rest edges producer ≡ ok out
      → All Climbs edges
      → Owned nodes producer
      → All Climbs out.0 × Owned nodes out.1
  unfolding collect_edges
  collect_edges-Climbs [] edges producer out m r h a o =
      let outcome : (edges, producer) ≡ out = ground (arith, h) in
      subst (λ (z : List Edge × List (ℕ × Node)). All Climbs z.0 × Owned nodes z.1) outcome (a, o)
  collect_edges-Climbs (n ∷ rest) edges producer out m r h a o =
      elim (Outcome-cases (after_edges nodes n n.after edges)) [
        | inr f ↦ absurd (ground (arith, h, f.1))
        | inl more ↦ elim (Outcome-cases (claim_writes n n.writes producer)) [
          | inr f ↦ absurd (ground (arith, h, more.1, f.1))
          | inl later ↦
              collect_edges-Climbs rest more.0 later.0 out (λ x k. m x (inr k)) r.1
                (ground (arith, h, more.1, later.1))
                (after_edges-Climbs n n.after edges more.0 (λ u k. r.0 u (inl k)) more.1 a)
                (claim_writes-Owned n n.writes producer later.0 (m n (inl refl)) (λ x k. k) later.1
                  o)
        ]
      ]

  pub collect_reads-Climbs :
      (producer : List (ℕ × Node)) (rest : List Node) (edges out : List Edge)
      → Owned nodes producer
      → RankGrows rest
      → collect_reads producer rest edges ≡ ok out
      → All Climbs edges
      → All Climbs out
  unfolding collect_reads
  collect_reads-Climbs producer [] edges out o r h a = subst (All Climbs) (ground (arith, h)) a
  collect_reads-Climbs producer (n ∷ rest) edges out o r h a =
      elim (Outcome-cases (read_edges producer n n.reads edges)) [
        | inr f ↦ absurd (ground (arith, h, f.1))
        | inl more ↦
            collect_reads-Climbs producer rest more.0 out o r.1 (ground (arith, h, more.1))
              (read_edges-Climbs producer n n.reads edges more.0 o r.0 (λ x k. k) more.1 a)
      ]
