-- ===== src/Kernel/Graph/Run.antt =====
-- The loop of `compile_graph`, from its first turn on.
use eazy_sdk.Prelude.{
  ℕ, ◌≤◌, ◌≡◌, subst, some, List, [], ◌∷◌, ◌==◌, if◌then◌else◌, length, Bool-cases, inl, inr, arith,
}
use eazy_sdk.Prelude.Outcome.{ok}
use eazy_sdk.Dict.{sorted, filter}
use eazy_sdk.Kernel.Graph.{Node, Edge, targets, indegrees, before, schedule, sort_nodes}
use eazy_sdk.Kernel.Graph.Counts.{occ, pend, ids, occ-sorted, occ-filter, indegrees-pend}
use eazy_sdk.Kernel.Graph.Loop.{Ordered, length-occ-le}
use eazy_sdk.Kernel.Graph.Ends.{schedule-ends}

-- A list as long as another, of which it has no more of any node, has the same nodes.
pub same-occ :
    (a b : List Node)
    → ((v : ℕ) → occ v a ≤ occ v b)
    → length a ≡ length b
    → (v : ℕ) → occ v a ≡ occ v b
same-occ a b h l v = elim (Bool-cases (occ v a == occ v b)) [
  | inl e ↦ ground (arith, e)
  | inr e ↦
      let witness : Node = record {
        identity = v;
        name = [];
        kind = 0;
        reads = [];
        writes = [];
        after = [];
      } in
      absurd (omega (arith, l, length-occ-le (witness ∷ a) b λ w. ground (arith, h w, h v, e)))
]

module _ (set_order : List Node → List Node)
    (walked : (v : ℕ) (l : List Node) → occ v (set_order l) ≡ occ v l) (nodes : List Node)
    (edges : List Edge) (once : (v : ℕ) → occ v nodes ≤ 1)
    (within : (u v : ℕ) → occ v nodes ≡ 0 → occ v (targets edges u) ≡ 0) where
  abbrev first_ready : List Node
  first_ready = sorted before (filter (λ (n : Node). indegrees edges n.identity == 0) nodes)

  -- The loop from its first turn on.
  pub loop_ends :
      (out : List Node) × (schedule set_order (length nodes) edges first_ready [] (indegrees edges)
        ≡ some out)
      × Ordered edges [] out
      × ((v : ℕ) → occ v out ≡ (if pend edges (ids out) v == 0 then occ v nodes else 0))
  loop_ends =
      schedule-ends set_order edges nodes walked once within (length nodes) first_ready []
        (indegrees edges) (omega arith)
        record {
          counted = λ v. ground (arith, indegrees-pend edges v);
          split = λ v. ground (
            arith,
            occ-sorted before v (filter (λ (n : Node). indegrees edges n.identity == 0) nodes),
            occ-filter (λ i. indegrees edges i == 0) v nodes,
          );
        }
        tt

  pub sort_nodes-inv :
      (result : List Node)
      → sort_nodes set_order nodes edges ≡ ok result
      → Ordered edges [] result × ((v : ℕ) → occ v result ≡ occ v nodes)
  unfolding sort_nodes
  sort_nodes-inv result h =
      let run = loop_ends in
      let same : run.0 ≡ result = ground (arith, h, run.1) in
      let long : length run.0 ≡ length nodes = ground (arith, h, run.1) in
      (
        subst (λ z. Ordered edges [] z) same run.2,
        subst (λ z. (v : ℕ) → occ v z ≡ occ v nodes) same
            (same-occ run.0 nodes (λ v. ground (arith, run.3 v)) long),
      )
