-- ===== src/Kernel/Graph/Order.antt =====
-- What `compile_graph` promises of the plan that it returns.
use eazy_sdk.Prelude.{
  ℕ, ◌≤◌, ◌≡◌, ◌≢◌, ◌⊎◌, refl, sym, ◌∙◌, subst, true, some, List, [], ◌∷◌, ◌++◌, ◌==◌, elem, All,
  Bool-cases, inl, inr, arith,
}
use eazy_sdk.Prelude.Outcome.{ok, Outcome-cases}
use eazy_sdk.Dict.Every.{All_at}
use eazy_sdk.Dict.{Mem, lookup}
use eazy_sdk.Kernel.Graph.{
  Node, Edge, targets, has_duplicate, collect_edges, collect_reads, compile_graph,
}
use eazy_sdk.Kernel.Graph.Counts.{occ, ids}
use eazy_sdk.Kernel.Graph.Loop.{Ordered}
use eazy_sdk.Kernel.Graph.Edges.{Adds, Linked, Linked-Adds, Fed, FedSlot}
use eazy_sdk.Kernel.Graph.Collect.{Claims, collect_edges-Linked, collect_reads-Fed}
use eazy_sdk.Kernel.Graph.Split.{has_duplicate_none, Among-self, pend-zero, Ordered-split}
use eazy_sdk.Kernel.Graph.Run.{sort_nodes-inv}

-- What a call that returns has built.
record Compiled (nodes result : List Node) : Type 0 where
  edges : List Edge
  producer : List (ℕ × Node)
  once : (v : ℕ) → occ v nodes ≤ 1
  ordered : Ordered edges [] result
  same : (v : ℕ) → occ v result ≡ occ v nodes
  linked : All (λ (n : Node). Linked edges n n.after) nodes
  claims : All (λ (n : Node). Claims producer n n.writes) nodes
  fed : All (λ (n : Node). Fed producer edges n n.reads) nodes

All-Linked :
    (nodes rest : List Node) (edges more : List Edge)
    → Adds nodes edges more
    → All (λ (n : Node). Linked edges n n.after) rest
    → All (λ (n : Node). Linked more n n.after) rest
All-Linked nodes [] edges more a h = tt
All-Linked nodes (n ∷ rest) edges more a h =
    (Linked-Adds nodes edges more n n.after a h.0, All-Linked nodes rest edges more a h.1)

pub no_targets : (u v : ℕ) → occ v (targets [] u) ≡ 0
unfolding targets
no_targets u v = refl

-- A node needs another before it: it names it, or reads a slot that the other writes.
abbrev pub Needs : List Node → Node → ℕ → Type 0
Needs nodes m u =
    Mem u m.after
    ⊎ ((w : Node) × (slot : ℕ) × Mem w nodes
        × (w.identity ≡ u)
        × (u ≢ m.identity)
        × Mem slot w.writes
        × Mem slot m.reads)

module _ (set_order : List Node → List Node)
    (walked : (v : ℕ) (l : List Node) → occ v (set_order l) ≡ occ v l) (nodes : List Node) where
  compiled :
      (result : List Node) → compile_graph set_order nodes ≡ ok result → Compiled nodes result
  unfolding compile_graph
  compiled result h = elim (Bool-cases (has_duplicate nodes)) [
    | inl e ↦ absurd (ground (arith, h, e))
    | inr e ↦ elim (Outcome-cases (collect_edges nodes nodes [] [])) [
      | inr f ↦ absurd (ground (arith, h, e, f.1))
      | inl c ↦ elim (Outcome-cases (collect_reads c.0.1 nodes c.0.0)) [
        | inr f ↦ absurd (ground (arith, h, e, c.1, f.1))
        | inl r ↦
            let once = has_duplicate_none nodes e in
            let among = Among-self nodes nodes λ v. omega arith in
            let first = collect_edges-Linked nodes nodes [] [] c.0 among c.1 in
            let second = collect_reads-Fed nodes nodes c.0.1 c.0.0 r.0 among r.1 in
            let sorted_nodes =
              sort_nodes-inv set_order walked nodes r.0 once
                (λ u v z. second.0.inside u v z (first.0.inside u v z (no_targets u v))) result
                (ground (arith, h, e, c.1, r.1)) in
            record {
              edges = r.0;
              producer = c.0.1;
              once = once;
              ordered = sorted_nodes.0;
              same = sorted_nodes.1;
              linked = All-Linked nodes nodes c.0.0 r.0 second.0 first.2;
              claims = first.3;
              fed = second.1;
            }
      ]
    ]
  ]

  -- In the plan that `compile_graph` returns, every node stands behind the nodes that it names in
  -- `after` and behind the writers of the slots that it reads, in whatever order sets are walked.
  pub compile_graph-Needs :
      (result : List Node) (m : Node) (front back : List ℕ) (u : ℕ)
      → compile_graph set_order nodes ≡ ok result
      → Mem m nodes
      → ids result ≡ front ++ m.identity ∷ back
      → Needs nodes m u
      → elem u front ≡ true
  compile_graph-Needs result m front back u h member e needs =
      let plan = compiled result h in
      let free = Ordered-split plan.edges [] result front back m.identity plan.ordered e in
      pend-zero plan.edges front u m.identity free (elim needs [
        | inl named ↦
            All_at (λ x. 1 ≤ occ m.identity (targets plan.edges x)) m.after u
              (All_at (λ (n : Node). Linked plan.edges n n.after) nodes m plan.linked member) named
        | inr (w, slot, writer, same, apart, written, read) ↦
            let produced =
              All_at (λ x. lookup ◌==◌ x plan.producer ≡ some w) w.writes slot
                (All_at (λ (n : Node). Claims plan.producer n n.writes) nodes w plan.claims writer)
                written in
            let fed =
              All_at (FedSlot plan.producer plan.edges m) m.reads slot
                (All_at (λ (n : Node). Fed plan.producer plan.edges n n.reads) nodes m plan.fed
                  member)
                read in
            subst (λ x. 1 ≤ occ m.identity (targets plan.edges x)) same
              (fed w produced (λ q. apart (sym same ∙ q)))
      ])

  -- The plan that `compile_graph` returns holds each of the nodes exactly once, and nothing else.
  pub compile_graph-occ :
      (result : List Node)
      → compile_graph set_order nodes ≡ ok result
      → (v : ℕ) → (occ v result ≡ occ v nodes) × (occ v result ≤ 1)
  compile_graph-occ result h v =
      let plan = compiled result h in (plan.same v, omega (arith, plan.same v, plan.once v))
