-- ===== src/Workflow/Graph/Walk.antt =====
-- Where the lookups of a workflow lead.
use manglekit.Common.{
  String, true, Option-cases, ◌∙◌, ◌≡◌, refl, inl, inr, none, some, List, [], ◌∷◌, arith, Map,
  eq_iff, contains,
}
use manglekit.Workflow.{Value, ok, Node, Edge, Workflow, Env}
use manglekit.Workflow.Graph.{
  first_start, first_node, find_start_node, find_node, find_node_by_id, evaluate_condition, follow,
}

abbrev pub ids_of : List Node → List String
ids_of [] = []
ids_of (n ∷ ns) = n.id ∷ ids_of ns

find_node-contains :
    (id : String) (ns : List Node) (n : Node)
    → find_node id ns ≡ some n
    → contains (ids_of ns) n.id ≡ true
unfolding find_node
find_node-contains id [] n h = cc
find_node-contains id (m ∷ ns) n h = ground (arith, eq_iff m.id n.id, find_node-contains id ns n)

pub find_node_by_id-contains :
    (wf : Workflow) (id : String) (n : Node)
    → find_node_by_id wf id ≡ some n
    → contains (ids_of wf.nodes) n.id ≡ true
unfolding find_node_by_id
find_node_by_id-contains wf id n h = find_node-contains id wf.nodes n h

first_start-contains :
    (es : List Edge) (ns : List Node) (n : Node)
    → first_start es ns ≡ some n
    → contains (ids_of ns) n.id ≡ true
unfolding first_start
first_start-contains es [] n h = cc
first_start-contains es (m ∷ ns) n h =
    ground (arith, eq_iff m.id n.id, first_start-contains es ns n)

first_node-contains :
    (ns : List Node) (n : Node) → first_node ns ≡ some n → contains (ids_of ns) n.id ≡ true
first_node-contains [] n h = cc
first_node-contains (m ∷ ns) n h = ground (arith, eq_iff m.id n.id)

pub find_start_node-contains :
    (wf : Workflow) (n : Node)
    → find_start_node wf ≡ some n
    → contains (ids_of wf.nodes) n.id ≡ true
unfolding find_start_node
find_start_node-contains wf n h = elim (Option-cases (first_start wf.edges wf.nodes)) [
  | inl z ↦ first_node-contains wf.nodes n (rw (z, find_start_node) at h)
  | inr (m, z) ↦ first_start-contains wf.edges wf.nodes n (z ∙ rw (z, find_start_node) at h)
]

first_node-none : (ns : List Node) → first_node ns ≡ none → ns ≡ []
first_node-none [] h = refl
first_node-none (m ∷ ns) h = cc

-- Only a workflow with no node has no start node.
pub find_start_node-none : (wf : Workflow) → find_start_node wf ≡ none → wf.nodes ≡ []
unfolding find_start_node
find_start_node-none wf h = elim (Option-cases (first_start wf.edges wf.nodes)) [
  | inl z ↦ first_node-none wf.nodes (rw (z, find_start_node) at h)
  | inr (m, z) ↦ absurd (cc (rw (z, find_start_node) at h))
]

module _ (env : Env) where
  open env use {World}

  pub follow-contains :
      (wf : Workflow) (es : List Edge) (output : Value) (previous : Map Value) (w : World)
      (n : Node)
      → (follow env wf es output previous w).0 ≡ ok (some n)
      → contains (ids_of wf.nodes) n.id ≡ true
  unfolding follow
  follow-contains wf [] output previous w n h = cc
  follow-contains wf (e ∷ es) output previous w n h =
      let w' = (evaluate_condition env e.condition output previous w).1 in
      ground (arith, find_node_by_id-contains wf e.to n, follow-contains wf es output previous w' n)
