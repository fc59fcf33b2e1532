-- ===== src/Kernel/Graph.antt =====
-- eazy_sdk/core/kernel.py: `compile_graph`. Nodes and slots are named by identity (`id(…)`), a
-- text is the list of its code points, a set of identities is the list of the nodes they name.
pub mod Counts
pub mod Loop
pub mod Ends
pub mod Edges
pub mod Collect
pub mod Split
pub mod Run
pub mod Order
pub mod Errors
pub mod Ranked
pub mod Acyclic
use eazy_sdk.Prelude.{
  ℕ, zero, suc, ◌+◌, ◌-◌, Bool, true, false, not, ◌&&◌, Option, none, some, List, [], ◌∷◌, ◌++◌,
  ◌==◌, ltb, elem, map, if◌then◌else◌, length, is_some,
}
use eazy_sdk.Prelude.Outcome.{Outcome, ok, err, ◌>>=◌, refuse_if, or_raise}
use eazy_sdk.Dict.{sorted, filter, lookup}

pub record Node : Type 0 where
  pub identity : ℕ
  pub name : List ℕ
  -- the phase, an `IntEnum`
  pub kind : ℕ
  pub reads : List ℕ
  pub writes : List ℕ
  -- the identities of the nodes that it names
  pub after : List ℕ

-- `GraphError` and `WriterConflictError`, with the identities that their messages are about.
pub data GraphError : Type 0 where
  duplicate_node cycle out_of_fuel : GraphError
  unknown_node : ℕ → GraphError
  back_edge : ℕ → ℕ → GraphError
  writer_conflict : ℕ → ℕ → ℕ → GraphError

-- `<=` on texts
unfoldable pub name_le : List ℕ → List ℕ → Bool
name_le [] b = true
name_le (x ∷ a) [] = false
name_le (x ∷ a) (y ∷ b) =
    let rest = name_le a b in if ltb x y then true else if x == y then rest else false

-- The order of the key `(node.kind, node.name)`.
unfoldable pub before : Node → Node → Bool
before a b =
    if ltb a.kind b.kind then true else if a.kind == b.kind then name_le a.name b.name else false

unfoldable pub before_by_name : Node → Node → Bool
before_by_name a b = name_le a.name b.name

-- `by_id`
unfoldable pub find_node : List Node → ℕ → Option Node
find_node [] i = none
find_node (n ∷ rest) i = let more = find_node rest i in if n.identity == i then some n else more

-- `len({id(node) for node in nodes}) != len(nodes)`
unfoldable pub has_duplicate : List Node → Bool
has_duplicate [] = false
has_duplicate (n ∷ rest) =
    let more = has_duplicate rest in if is_some (find_node rest n.identity) then true else more

-- An edge: the identity of its source, and its target.
abbrev pub Edge : Type 0
Edge = ℕ × Node

unfoldable pub targets : List Edge → ℕ → List Node
targets [] u = []
targets ((source, target) ∷ edges) u =
    let rest = targets edges u in if source == u then target ∷ rest else rest

-- `edges[u].add(id(v))`
unfoldable pub add_edge : ℕ → Node → List Edge → List Edge
unfolding find_node targets
add_edge u v edges =
    if is_some (find_node (targets edges u) v.identity) then edges else edges ++ (u, v) ∷ []

-- The loop over `node.after`.
unfoldable pub after_edges : List Node → Node → List ℕ → List Edge → Outcome GraphError (List Edge)
unfolding add_edge find_node
after_edges nodes node [] edges = ok edges
after_edges nodes node (i ∷ rest) edges =
    or_raise (find_node nodes i) (unknown_node node.identity) >>= λ (dependency : Node).
    refuse_if (ltb node.kind dependency.kind) (back_edge dependency.identity node.identity)
    >>= λ done. after_edges nodes node rest (add_edge dependency.identity node edges)

-- The loop over `node.writes`; `writers` and `producer` have the same contents.
unfoldable pub claim_writes : Node → List ℕ → List (ℕ × Node) → Outcome GraphError (List (ℕ × Node))
unfolding lookup
claim_writes node [] producer = ok producer
claim_writes node (slot ∷ rest) producer = elim (lookup ◌==◌ slot producer) [
  | some previous ↦ err (writer_conflict slot previous.identity node.identity)
  | none ↦ claim_writes node rest ((slot, node) ∷ producer)
]

-- The first loop over the nodes.
unfoldable pub collect_edges :
    List Node
    → List Node
    → List Edge
    → List (ℕ × Node)
    → Outcome GraphError (List Edge × List (ℕ × Node))
unfolding after_edges claim_writes
collect_edges nodes [] edges producer = ok (edges, producer)
collect_edges nodes (node ∷ rest) edges producer =
    after_edges nodes node node.after edges >>= λ more.
    claim_writes node node.writes producer >>= λ claimed. collect_edges nodes rest more claimed

-- The loop over `node.reads`.
unfoldable pub read_edges :
    List (ℕ × Node) → Node → List ℕ → List Edge → Outcome GraphError (List Edge)
unfolding lookup add_edge
read_edges producer node [] edges = ok edges
read_edges producer node (slot ∷ rest) edges = elim (lookup ◌==◌ slot producer) [
  | none ↦ read_edges producer node rest edges
  | some source ↦ elim (source.identity == node.identity) [
    | true ↦ read_edges producer node rest edges
    | false ↦
        refuse_if (ltb node.kind source.kind) (back_edge source.identity node.identity) >>= λ done.
        read_edges producer node rest (add_edge source.identity node edges)
  ]
]

-- The second loop over the nodes.
unfoldable pub collect_reads :
    List (ℕ × Node) → List Node → List Edge → Outcome GraphError (List Edge)
unfolding read_edges
collect_reads producer [] edges = ok edges
collect_reads producer (node ∷ rest) edges =
    read_edges producer node node.reads edges >>= λ more. collect_reads producer rest more

-- `indegree[i] += 1` and `indegree[i] -= 1`
unfoldable pub raise_at : ℕ → (ℕ → ℕ) → ℕ → ℕ
raise_at i indegree v = if v == i then indegree v + 1 else indegree v

unfoldable pub lower_at : ℕ → (ℕ → ℕ) → ℕ → ℕ
lower_at i indegree v = if v == i then indegree v - 1 else indegree v

unfoldable pub indegrees : List Edge → ℕ → ℕ
unfolding raise_at
indegrees [] = λ v. 0
indegrees ((u, v) ∷ edges) = raise_at v.identity (indegrees edges)

-- The loop over the targets of a node: the nodes that are ready, and the degrees.
unfoldable pub release : List Node → List Node → (ℕ → ℕ) → List Node × (ℕ → ℕ)
unfolding lower_at sorted before
release [] ready indegree = (ready, indegree)
release (t ∷ rest) ready indegree =
    release rest
      (if lower_at t.identity indegree t.identity == 0
        then sorted before (ready ++ t ∷ [])
        else ready)
      (lower_at t.identity indegree)

-- `set_order` is the order in which a set of identities is walked.
module _ (set_order : List Node → List Node) where
  -- The `while` loop, on fuel: `none` when the fuel runs out.
  unfoldable pub schedule : ℕ → List Edge → List Node → List Node → (ℕ → ℕ) → Option (List Node)
  unfolding release targets sorted before_by_name
  schedule fuel edges [] result indegree = some result
  schedule zero edges (node ∷ ready) result indegree = none
  schedule (suc fuel) edges (node ∷ ready) result indegree =
      let next =
        release (sorted before_by_name (set_order (targets edges node.identity))) ready indegree in
      schedule fuel edges next.0 (result ++ node ∷ []) next.1

  unfoldable pub sort_nodes : List Node → List Edge → Outcome GraphError (List Node)
  unfolding schedule filter sorted before indegrees
  sort_nodes nodes edges =
      or_raise
        (schedule (length nodes) edges
          (sorted before (filter (λ (n : Node). indegrees edges n.identity == 0) nodes)) []
          (indegrees edges))
        out_of_fuel
      >>= λ result. if length result == length nodes then ok result else err cycle

  unfoldable pub compile_graph : List Node → Outcome GraphError (List Node)
  unfolding has_duplicate collect_edges collect_reads sort_nodes
  compile_graph nodes = refuse_if (has_duplicate nodes) duplicate_node >>= λ done.
      collect_edges nodes nodes [] [] >>= λ found.
      collect_reads found.1 nodes found.0 >>= λ edges. sort_nodes nodes edges
