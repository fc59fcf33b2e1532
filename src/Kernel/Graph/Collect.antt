-- ===== src/Kernel/Graph/Collect.antt =====
-- The first two loops of `compile_graph` over all nodes.
use eazy_sdk.Prelude.{
  ℕ, ◌≤◌, ◌≡◌, subst, some, List, [], ◌∷◌, ◌==◌, All, Option-cases, inl, inr, arith,
}
use eazy_sdk.Prelude.Outcome.{ok, Outcome-cases}
use eazy_sdk.Dict.{lookup}
use eazy_sdk.Kernel.Graph.{
  Node, Edge, after_edges, claim_writes, collect_edges, read_edges, collect_reads,
}
use eazy_sdk.Kernel.Graph.Counts.{occ}
use eazy_sdk.Kernel.Graph.Edges.{
  Adds, Adds-refl, Adds-trans, Linked, Linked-Adds, Fed, after_edges-Adds, read_edges-Adds,
}

-- A later table of producers keeps what an earlier one says.
abbrev pub Keeps : List (ℕ × Node) → List (ℕ × Node) → Type 0
Keeps producer later =
    (slot : ℕ) (n : Node) → lookup ◌==◌ slot producer ≡ some n → lookup ◌==◌ slot later ≡ some n

-- A node is the producer of its slots.
abbrev pub Claims : List (ℕ × Node) → Node → List ℕ → Type 0
Claims producer node slots = All (λ slot. lookup ◌==◌ slot producer ≡ some node) slots

Claims-Keeps :
    (producer later : List (ℕ × Node)) (node : Node) (slots : List ℕ)
    → Keeps producer later
    → Claims producer node slots
    → Claims later node slots
Claims-Keeps producer later node [] k h = tt
Claims-Keeps producer later node (slot ∷ slots) k h =
    (k slot node h.0, Claims-Keeps producer later node slots k h.1)

claim_writes-Claims :
    (node : Node) (slots : List ℕ) (producer later : List (ℕ × Node))
    → claim_writes node slots producer ≡ ok later
    → Keeps producer later × Claims later node slots
unfolding claim_writes
claim_writes-Claims node [] producer later h =
    (λ slot n e. subst (λ z. lookup ◌==◌ slot z ≡ some n) (ground (arith, h)) e, tt)
claim_writes-Claims node (slot ∷ slots) producer later h =
    elim (Option-cases (lookup ◌==◌ slot producer)) [
      | inr s ↦ absurd (ground (arith, h, s.1))
      | inl e ↦
          let ih =
            claim_writes-Claims node slots ((slot, node) ∷ producer) later (ground (arith, h, e)) in
          (λ x n q. ih.0 x n (ground (arith, q, e)), (ih.0 slot node (ground arith), ih.1))
    ]

-- All members of a list of nodes are among the nodes.
abbrev pub Among : List Node → List Node → Type 0
Among nodes rest = All (λ (n : Node). 1 ≤ occ n.identity nodes) rest

pub collect_edges-Linked :
    (nodes rest : List Node) (edges : List Edge) (producer : List (ℕ × Node))
    (out : List Edge × List (ℕ × Node))
    → Among nodes rest
    → collect_edges nodes rest edges producer ≡ ok out
    → Adds nodes edges out.0
      × Keeps producer out.1
      × (All (λ (n : Node). Linked out.0 n n.after) rest)
      × (All (λ (n : Node). Claims out.1 n n.writes) rest)
unfolding collect_edges
collect_edges-Linked nodes [] edges producer out a h =
    let outcome : (edges, producer) ≡ out = ground (arith, h) in
    subst
      (λ (z : List Edge × List (ℕ × Node)).
        Adds nodes edges z.0
        × Keeps producer z.1
        × (All (λ (n : Node). Linked z.0 n n.after) [])
        × (All (λ (n : Node). Claims z.1 n n.writes) []))
      outcome (Adds-refl nodes edges, λ slot n e. e, tt, tt)
collect_edges-Linked nodes (n ∷ rest) edges producer out a h =
    elim (Outcome-cases (after_edges nodes n n.after edges)) [
      | inr e ↦ absurd (ground (arith, h, e.1))
      | inl more ↦ elim (Outcome-cases (claim_writes n n.writes producer)) [
        | inr e ↦ absurd (ground (arith, h, more.1, e.1))
        | inl later ↦
            let first = after_edges-Adds nodes n a.0 n.after edges more.0 more.1 in
            let claimed = claim_writes-Claims n n.writes producer later.0 later.1 in
            let ih =
              collect_edges-Linked nodes rest more.0 later.0 out a.1
                (ground (arith, h, more.1, later.1)) in
            (
              Adds-trans nodes edges more.0 out.0 first.0 ih.0,
              λ slot s e. ih.1 slot s (claimed.0 slot s e),
              (Linked-Adds nodes more.0 out.0 n n.after ih.0 first.1, ih.2),
              (Claims-Keeps later.0 out.1 n n.writes ih.1 claimed.1, ih.3),
            )
      ]
    ]

Fed-Adds :
    (nodes : List Node) (producer : List (ℕ × Node)) (edges more : List Edge) (node : Node)
    (slots : List ℕ)
    → Adds nodes edges more
    → Fed producer edges node slots
    → Fed producer more node slots
Fed-Adds nodes producer edges more node [] a h = tt
Fed-Adds nodes producer edges more node (slot ∷ slots) a h = (
  λ source e apart. omega (arith, a.kept source.identity node.identity, h.0 source e apart),
  Fed-Adds nodes producer edges more node slots a h.1,
)

pub collect_reads-Fed :
    (nodes rest : List Node) (producer : List (ℕ × Node)) (edges out : List Edge)
    → Among nodes rest
    → collect_reads producer rest edges ≡ ok out
    → Adds nodes edges out × (All (λ (n : Node). Fed producer out n n.reads) rest)
unfolding collect_reads
collect_reads-Fed nodes [] producer edges out a h =
    (subst (λ z. Adds nodes edges z) (ground (arith, h)) (Adds-refl nodes edges), tt)
collect_reads-Fed nodes (n ∷ rest) producer edges out a h =
    elim (Outcome-cases (read_edges producer n n.reads edges)) [
      | inr e ↦ absurd (ground (arith, h, e.1))
      | inl more ↦
          let first = read_edges-Adds nodes n a.0 producer n.reads edges more.0 more.1 in
          let ih =
            collect_reads-Fed nodes rest producer more.0 out a.1 (ground (arith, h, more.1)) in
          (
            Adds-trans nodes edges more.0 out first.0 ih.0,
            (Fed-Adds nodes producer more.0 out n n.reads ih.0 first.1, ih.1),
          )
    ]
