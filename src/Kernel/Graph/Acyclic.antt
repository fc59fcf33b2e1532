-- ===== src/Kernel/Graph/Acyclic.antt =====
-- When `compile_graph` finds no cycle, and that its loop ends.
use eazy_sdk.Prelude.{
  ℕ, zero, suc, ◌+◌, ◌≤◌, ◌<◌, ◌≡◌, ◌≢◌, refl, subst, true, List, [], ◌∷◌, ◌==◌, elem,
  if◌then◌else◌, All, Bool-cases, inl, inr, arith,
}
use eazy_sdk.Prelude.Outcome.{ok, err, Outcome-cases}
use eazy_sdk.Kernel.Graph.{
  Node, Edge, targets, has_duplicate, collect_edges, collect_reads, sort_nodes, compile_graph,
  GraphError, out_of_fuel, cycle,
}
use eazy_sdk.Kernel.Graph.Counts.{occ, pend, ids}
use eazy_sdk.Kernel.Graph.Loop.{length-occ-le}
use eazy_sdk.Kernel.Graph.Collect.{collect_edges-Linked, collect_reads-Fed}
use eazy_sdk.Kernel.Graph.Split.{has_duplicate_none, Among-self}
use eazy_sdk.Kernel.Graph.Run.{loop_ends}
use eazy_sdk.Kernel.Graph.Order.{no_targets}
use eazy_sdk.Kernel.Graph.Errors.{is_late, collect_edges-early, collect_reads-early}
use eazy_sdk.Kernel.Graph.Ranked.{Climbs, RankGrows, collect_edges-Climbs, collect_reads-Climbs}

elem-occ : (v : ℕ) (l : List Node) → 1 ≤ occ v l → elem v (ids l) ≡ true
elem-occ v [] h = absurd (omega (arith, h))
elem-occ v (n ∷ l) h = ground (arith, h, elem-occ v l)

-- A late error comes from the sort, for edges whose targets are nodes.
record Late (set_order : List Node → List Node) (nodes : List Node) (e : GraphError) : Type 0 where
  edges : List Edge
  found : List Edge × List (ℕ × Node)
  once : (v : ℕ) → occ v nodes ≤ 1
  within : (u v : ℕ) → occ v nodes ≡ 0 → occ v (targets edges u) ≡ 0
  collected : collect_edges nodes nodes [] [] ≡ ok found
  read : collect_reads found.1 nodes found.0 ≡ ok edges
  sort : sort_nodes set_order nodes edges ≡ err e

module _ (set_order : List Node → List Node)
    (walked : (v : ℕ) (l : List Node) → occ v (set_order l) ≡ occ v l) (nodes : List Node) where
  late :
      (e : GraphError)
      → compile_graph set_order nodes ≡ err e
      → is_late e ≡ true
      → Late set_order nodes e
  unfolding compile_graph
  late e h l = elim (Bool-cases (has_duplicate nodes)) [
    | inl d ↦ absurd (ground (arith, h, d, l))
    | inr d ↦ elim (Outcome-cases (collect_edges nodes nodes [] [])) [
      | inr f ↦ absurd (ground (arith, h, d, f.1, l, collect_edges-early nodes nodes [] [] f.0 f.1))
      | inl c ↦ elim (Outcome-cases (collect_reads c.0.1 nodes c.0.0)) [
        | inr f ↦
            absurd
              (ground (arith, h, d, c.1, f.1, l, collect_reads-early c.0.1 nodes c.0.0 f.0 f.1))
        | inl r ↦
            let among = Among-self nodes nodes λ v. omega arith in
            let first = collect_edges-Linked nodes nodes [] [] c.0 among c.1 in
            let second = collect_reads-Fed nodes nodes c.0.1 c.0.0 r.0 among r.1 in
            record {
              edges = r.0;
              found = c.0;
              once = has_duplicate_none nodes d;
              within = λ u v z. second.0.inside u v z (first.0.inside u v z (no_targets u v));
              collected = c.1;
              read = r.1;
              sort = ground (arith, h, d, c.1, r.1);
            }
      ]
    ]
  ]

  -- The fuel of the loop, the number of the nodes, is always enough.
  pub compile_graph-ends : compile_graph set_order nodes ≢ err out_of_fuel
  unfolding sort_nodes
  compile_graph-ends h =
      let call = late out_of_fuel h refl in
      let run = loop_ends set_order walked nodes call.edges call.once call.within in
      ground (arith, call.sort, run.1)

  module _ (rank : ℕ → ℕ) where
    pending_none :
        (all edges : List Edge) (out : List Node) (v : ℕ)
        → ((u : ℕ) → rank u < rank v → occ u out ≡ occ u nodes)
        → All (Climbs nodes rank) edges
        → pend edges (ids out) v ≡ 0
    pending_none all [] out v h c = refl
    pending_none all ((u, w) ∷ edges) out v h c =
        let ih = pending_none all edges out v h c.1 in
        elim (Bool-cases (w.identity == v)) [
          | inr e ↦ ground (arith, ih, e)
          | inl e ↦
              let same : w.identity ≡ v = ground (arith, e) in
              let lower : rank u < rank v = subst (λ z. rank u < rank z) same c.0.0 in
              ground (arith, ih, e, elem-occ u out (omega (arith, h u lower, c.0.1)))
        ]

    -- By the rank: nothing is pending once the loop has ended.
    pending_below :
        (bound : ℕ) (edges : List Edge) (out : List Node)
        → All (Climbs nodes rank) edges
        → ((v : ℕ) → occ v out ≡ (if pend edges (ids out) v == 0 then occ v nodes else 0))
        → (v : ℕ) → rank v < bound
        → pend edges (ids out) v ≡ 0
    pending_below zero edges out c s v h = absurd (omega (arith, h))
    pending_below (suc bound) edges out c s v h =
        pending_none edges edges out v
          (λ u k. ground (arith, s u, pending_below bound edges out c s u (omega (arith, h, k)))) c

    -- When a rank can be given to the nodes that is above the ranks of all that a node needs,
    -- `compile_graph` reports no cycle.
    pub compile_graph-acyclic :
        RankGrows nodes rank nodes → compile_graph set_order nodes ≢ err cycle
    unfolding sort_nodes
    compile_graph-acyclic grows h =
        let call = late cycle h refl in
        let run = loop_ends set_order walked nodes call.edges call.once call.within in
        let first =
          collect_edges-Climbs nodes rank nodes [] [] call.found (λ n m. m) grows call.collected tt
            tt in
        let climbs =
          collect_reads-Climbs nodes rank call.found.1 nodes call.found.0 call.edges first.1 grows
            call.read first.0 in
        let full : (v : ℕ) → occ v run.0 ≡ occ v nodes = λ v. ground (
          arith,
          run.3 v,
          pending_below (rank v + 1) call.edges run.0 climbs run.3 v (omega arith),
        ) in
        let there = length-occ-le run.0 nodes λ v. omega (arith, full v) in
        let back = length-occ-le nodes run.0 λ v. omega (arith, full v) in
        ground (arith, call.sort, run.1, there, back)
