-- ===== src/Kernel/Graph/Ends.antt =====
-- What the loop of `compile_graph` returns.
use eazy_sdk.Prelude.{
  append_nil, append_one, ℕ, zero, suc, ◌+◌, ◌≤◌, ◌≡◌, refl, sym, ◌∙◌, subst, some, List, [], ◌∷◌,
  ◌++◌, ◌==◌, if◌then◌else◌, length, arith, length-append,
}
use eazy_sdk.Dict.{sorted}
use eazy_sdk.Kernel.Graph.{Node, Edge, targets, release, before_by_name, schedule}
use eazy_sdk.Kernel.Graph.Counts.{occ, pend, ids, occ-append, occ-sorted, pend-append}
use eazy_sdk.Kernel.Graph.Loop.{Turn, Ordered, release-Turn, ids-snoc, elem-ids, length-occ-le}

pub Ordered-snoc :
    (edges : List Edge) (done : List ℕ) (l : List Node) (n : Node)
    → Ordered edges done l
    → pend edges (done ++ ids l) n.identity ≡ 0
    → Ordered edges done (l ++ n ∷ [])
Ordered-snoc edges done [] n h p =
    (subst (λ z. pend edges z n.identity ≡ 0) (append_nil done) p, tt)
Ordered-snoc edges done (x ∷ l) n h p = (
  h.0,
  Ordered-snoc edges (done ++ x.identity ∷ []) l n h.1
      (subst (λ z. pend edges z n.identity ≡ 0) (sym (append_one done (ids l) x.identity)) p),
)

module _ (set_order : List Node → List Node) (edges : List Edge) (nodes : List Node)
    (walked : (v : ℕ) (l : List Node) → occ v (set_order l) ≡ occ v l)
    (once : (v : ℕ) → occ v nodes ≤ 1)
    (within : (u v : ℕ) → occ v nodes ≡ 0 → occ v (targets edges u) ≡ 0) where
  abbrev next_targets : Node → List Node
  next_targets n = sorted before_by_name (set_order (targets edges n.identity))

  -- A node is moved from the ready ones to the result.
  pop-Turn :
      (result ready : List Node) (n : Node) (indegree : ℕ → ℕ)
      → Turn edges nodes result (n ∷ ready) indegree []
      → Turn edges nodes (result ++ n ∷ []) ready indegree (next_targets n)
  pop-Turn result ready n indegree h =
      let fresh : occ n.identity result ≡ 0 = ground (arith, h.split n.identity, once n.identity) in
      record {
        counted = λ v. ground (
          arith,
          h.counted v,
          ids-snoc result n,
          pend-append edges (ids result) n.identity v (elem-ids n.identity result fresh),
          occ-sorted before_by_name v (set_order (targets edges n.identity)),
          walked v (targets edges n.identity),
        );
        split = λ v. ground (arith, h.split v, occ-append v result (n ∷ []));
      }

  turn :
      (result ready : List Node) (n : Node) (indegree : ℕ → ℕ)
      → Turn edges nodes result (n ∷ ready) indegree []
      → Turn edges nodes
          (result ++ n ∷ [])
          (release (next_targets n) ready indegree).0
          (release (next_targets n) ready indegree).1
          []
  turn result ready n indegree h =
      release-Turn edges nodes once (result ++ n ∷ []) ready (next_targets n) indegree
        (λ v z.
          occ-sorted before_by_name v (set_order (targets edges n.identity))
          ∙ walked v (targets edges n.identity)
          ∙ within n.identity v z)
        (pop-Turn result ready n indegree h)

  -- The loop ends before its fuel does, with the nodes in order and none left that no edge holds
  -- back.
  pub schedule-ends :
      (fuel : ℕ) (ready result : List Node) (indegree : ℕ → ℕ)
      → length result + fuel ≡ length nodes
      → Turn edges nodes result ready indegree []
      → Ordered edges [] result
      → (out : List Node) × (schedule set_order fuel edges ready result indegree ≡ some out)
        × Ordered edges [] out
        × ((v : ℕ) → occ v out ≡ (if pend edges (ids out) v == 0 then occ v nodes else 0))
  unfolding schedule
  schedule-ends fuel [] result indegree f h o =
      (result, refl, o, λ v. ground (arith, h.counted v, h.split v))
  schedule-ends zero (n ∷ ready) result indegree f h o = absurd (
      omega (
        arith,
        f,
        length-append result (n ∷ ready),
        length-occ-le (result ++ n ∷ ready) nodes
            λ v. ground (arith, h.split v, occ-append v result (n ∷ ready)),
      ))
  schedule-ends (suc fuel) (n ∷ ready) result indegree f h o =
      schedule-ends fuel (release (next_targets n) ready indegree).0 (result ++ n ∷ [])
        (release (next_targets n) ready indegree).1
        (omega (arith, f, length-append result (n ∷ []))) (turn result ready n indegree h)
        (Ordered-snoc edges [] result n o
          (ground (arith, h.counted n.identity, h.split n.identity, once n.identity)))
