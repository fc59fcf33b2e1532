-- ===== src/Kernel/Graph/Errors.antt =====
-- Which errors the loops over the nodes raise, and when the plan has a cycle.
use eazy_sdk.Prelude.{
  ℕ, ◌≡◌, Bool, true, false, List, [], ◌∷◌, ◌==◌, ltb, Bool-cases, Option-cases, inl, inr, arith,
}
use eazy_sdk.Prelude.Outcome.{err, Outcome-cases}
use eazy_sdk.Dict.{lookup}
use eazy_sdk.Kernel.Graph.{
  Node, Edge, find_node, add_edge, after_edges, claim_writes, collect_edges, read_edges,
  collect_reads, GraphError, out_of_fuel, cycle,
}

-- The errors that only the end of `compile_graph` raises.
abbrev pub is_late : GraphError → Bool
is_late cycle = true
is_late out_of_fuel = true
is_late _ = false

after_edges-early :
    (nodes : List Node) (node : Node) (names : List ℕ) (edges : List Edge) (e : GraphError)
    → after_edges nodes node names edges ≡ err e
    → is_late e ≡ false
unfolding after_edges
after_edges-early nodes node [] edges e h = absurd (ground (arith, h))
after_edges-early nodes node (i ∷ names) edges e h = elim (Option-cases (find_node nodes i)) [
  | inl n ↦ ground (arith, h, n)
  | inr d ↦ elim (Bool-cases (ltb node.kind d.0.kind)) [
    | inl k ↦ ground (arith, h, d.1, k)
    | inr k ↦
        after_edges-early nodes node names (add_edge d.0.identity node edges) e
          (ground (arith, h, d.1, k))
  ]
]

claim_writes-early :
    (node : Node) (slots : List ℕ) (producer : List (ℕ × Node)) (e : GraphError)
    → claim_writes node slots producer ≡ err e
    → is_late e ≡ false
unfolding claim_writes
claim_writes-early node [] producer e h = absurd (ground (arith, h))
claim_writes-early node (slot ∷ slots) producer e h =
    elim (Option-cases (lookup ◌==◌ slot producer)) [
      | inr s ↦ ground (arith, h, s.1)
      | inl n ↦ claim_writes-early node slots ((slot, node) ∷ producer) e (ground (arith, h, n))
    ]

pub collect_edges-early :
    (nodes rest : List Node) (edges : List Edge) (producer : List (ℕ × Node)) (e : GraphError)
    → collect_edges nodes rest edges producer ≡ err e
    → is_late e ≡ false
unfolding collect_edges
collect_edges-early nodes [] edges producer e h = absurd (ground (arith, h))
collect_edges-early nodes (n ∷ rest) edges producer e h =
    elim (Outcome-cases (after_edges nodes n n.after edges)) [
      | inr f ↦ ground (arith, h, f.1, after_edges-early nodes n n.after edges f.0 f.1)
      | inl more ↦ elim (Outcome-cases (claim_writes n n.writes producer)) [
        | inr f ↦ ground (arith, h, more.1, f.1, claim_writes-early n n.writes producer f.0 f.1)
        | inl later ↦
            collect_edges-early nodes rest more.0 later.0 e (ground (arith, h, more.1, later.1))
      ]
    ]

read_edges-early :
    (producer : List (ℕ × Node)) (node : Node) (slots : List ℕ) (edges : List Edge) (e : GraphError)
    → read_edges producer node slots edges ≡ err e
    → is_late e ≡ false
unfolding read_edges
read_edges-early producer node [] edges e h = absurd (ground (arith, h))
read_edges-early producer node (slot ∷ slots) edges e h =
    elim (Option-cases (lookup ◌==◌ slot producer)) [
      | inl n ↦ read_edges-early producer node slots edges e (ground (arith, h, n))
      | inr s ↦ elim (Bool-cases (s.0.identity == node.identity)) [
        | inl q ↦ read_edges-early producer node slots edges e (ground (arith, h, s.1, q))
        | inr q ↦ elim (Bool-cases (ltb node.kind s.0.kind)) [
          | inl k ↦ ground (arith, h, s.1, q, k)
          | inr k ↦
              read_edges-early producer node slots (add_edge s.0.identity node edges) e
                (ground (arith, h, s.1, q, k))
        ]
      ]
    ]

pub collect_reads-early :
    (producer : List (ℕ × Node)) (rest : List Node) (edges : List Edge) (e : GraphError)
    → collect_reads producer rest edges ≡ err e
    → is_late e ≡ false
unfolding collect_reads
collect_reads-early producer [] edges e h = absurd (ground (arith, h))
collect_reads-early producer (n ∷ rest) edges e h =
    elim (Outcome-cases (read_edges producer n n.reads edges)) [
      | inr f ↦ ground (arith, h, f.1, read_edges-early producer n n.reads edges f.0 f.1)
      | inl more ↦ collect_reads-early producer rest more.0 e (ground (arith, h, more.1))
    ]
