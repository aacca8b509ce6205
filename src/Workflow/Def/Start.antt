-- ===== src/Workflow/Def/Start.antt =====
-- The start node of a workflow definition does not depend on the order in which Go walks the map.
use manglekit.Common.{
  String, Bool, true, not, ◌≡◌, refl, inl, inr, none, some, List, [], ◌∷◌, Map, lookup, arith,
  eq_iff, eq_refl, contains,
}
use manglekit.Workflow.Def.{NodeDef, WorkflowDef, least_node, find_start_node, get_node, targets}
use manglekit.Workflow.Def.Least.{
  IdsMatch, Passes, least_node-Passes, least_node-none, Distinct, SameMap, least_node-order,
}

-- `FindStartNode` gives the same node whatever order Go walks the map of nodes in: for two lists of
-- the same map, each key once and each node under its id, and the same root and edges.
pub find_start_node-order :
    (w : WorkflowDef) (m : Map NodeDef)
    → IdsMatch w.nodes
    → Distinct w.nodes
    → IdsMatch m
    → Distinct m
    → SameMap w.nodes m
    → find_start_node w ≡ find_start_node (record w { nodes = m })
unfolding find_start_node get_node
find_start_node-order w m i d i' d' same = cc (
  same w.root_node_id,
  least_node-order (λ id. not (contains (targets w.edges) id)) w.nodes m i d i' d' same,
  least_node-order (λ id. true) w.nodes m i d i' d' same,
)

-- The ids that the nodes of a map carry.
abbrev pub node_ids : Map NodeDef → List String
node_ids [] = []
node_ids ((k, n) ∷ m) = n.id ∷ node_ids m

pub lookup-node_ids :
    (k : String) (m : Map NodeDef) (n : NodeDef)
    → lookup k m ≡ some n
    → contains (node_ids m) n.id ≡ true
unfolding lookup
lookup-node_ids k [] n h = cc
lookup-node_ids k ((j, v) ∷ m) n h = ground (arith, eq_iff v.id n.id, lookup-node_ids k m n)

Passes-node_ids :
    (test : String → Bool) (n : NodeDef) (m : Map NodeDef)
    → Passes test n m
    → contains (node_ids m) n.id ≡ true
Passes-node_ids test n [] p = absurd p
Passes-node_ids test n ((id, k) ∷ m) (inl p) = ground (arith, eq_iff k.id n.id)
Passes-node_ids test n ((id, k) ∷ m) (inr p) = ground (arith, Passes-node_ids test n m p)

least_node-node_ids :
    (test : String → Bool) (m : Map NodeDef) (n : NodeDef)
    → least_node test m none ≡ some n
    → contains (node_ids m) n.id ≡ true
least_node-node_ids test m n e = elim (least_node-Passes test m none n e) [
  | inl z ↦ absurd (cc)
  | inr p ↦ Passes-node_ids test n m p
]

-- A start node is a node of the workflow.
pub find_start_node-node_ids :
    (w : WorkflowDef) (n : NodeDef)
    → find_start_node w ≡ some n
    → contains (node_ids w.nodes) n.id ≡ true
unfolding find_start_node get_node
find_start_node-node_ids w n h = ground (
  arith,
  lookup-node_ids w.root_node_id w.nodes n,
  least_node-node_ids (λ id. not (contains (targets w.edges) id)) w.nodes n,
  least_node-node_ids (λ id. true) w.nodes n,
)

least_node-empty : (m : Map NodeDef) → least_node (λ id. true) m none ≡ none → m ≡ []
least_node-empty [] h = refl
least_node-empty ((id, n) ∷ m) h =
    cc (
      (least_node-none (λ id. true) ((id, n) ∷ m) none id n h).1 (unfold lookup in rw (eq_refl id)))

-- Only a workflow with no node has no start node.
pub find_start_node-none : (w : WorkflowDef) → find_start_node w ≡ none → w.nodes ≡ []
unfolding find_start_node
find_start_node-none w h = least_node-empty w.nodes (ground arith)
