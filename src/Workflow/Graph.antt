-- ===== src/Workflow/Graph.antt =====
-- How a workflow is walked: `findStartNode`, `findErrorEdge`, `findNodeByID`, `findNextNode` and
-- `evaluateCondition` of multiagent/workflow_executor.go.
pub mod Walk
use Prim.Native.String.{◌++◌}
use text.Mathlib.Text.{starts_with}
use manglekit.Common.{
  ℕ, zero, suc, String, Bool, true, false, ◌&&◌, Option, none, some, List, [], ◌∷◌, Map, ◌==◌, ltb,
  if◌then◌else◌,
}
use manglekit.Workflow.{Value, null, str, other, Result, ok, err, Node, Edge, Workflow, Env}
use manglekit.Escape.{escape_string}

unfoldable pub is_start_node : List Edge → Node → Bool
is_start_node [] n = true
is_start_node (e ∷ es) n =
    let rest = is_start_node es n in if e.to == n.id && e.condition == "" then false else rest

-- The first loop of `findStartNode`.
unfoldable pub first_start : List Edge → List Node → Option Node
first_start es [] = none
first_start es (n ∷ ns) =
    let rest = first_start es ns in if is_start_node es n then some n else rest

abbrev pub first_node : List Node → Option Node
first_node [] = none
first_node (n ∷ ns) = some n

unfoldable pub find_start_node : Workflow → Option Node
find_start_node w = elim (first_start w.edges w.nodes) [
  | some n ↦ some n
  | none ↦ first_node w.nodes
]

unfoldable pub find_node : String → List Node → Option Node
find_node id [] = none
find_node id (n ∷ ns) = let rest = find_node id ns in if n.id == id then some n else rest

unfoldable pub find_node_by_id : Workflow → String → Option Node
find_node_by_id w id = find_node id w.nodes

unfoldable pub error_edge : String → List Edge → Option Edge
error_edge id [] = none
error_edge id (e ∷ es) =
    let rest = error_edge id es in
    if e.from == id && starts_with e.condition "error" then some e else rest

unfoldable pub find_error_edge : Workflow → Node → Option Edge
find_error_edge w n = error_edge n.id w.edges

unfoldable pub edges_from : String → List Edge → List Edge
edges_from id [] = []
edges_from id (e ∷ es) = let rest = edges_from id es in if e.from == id then e ∷ rest else rest

module _ (env : Env) where
  open env use {World, query, print}

  unfoldable pub format_value : Value → String
  format_value null = "null"
  format_value (str s) = escape_string s
  format_value (other n) = print n

  context_fact : String → String → String
  context_fact k v = "context(\"" ++ (k ++ ("\", \"" ++ (v ++ "\").")))

  result_facts : Map Value → List String
  result_facts [] = []
  result_facts ((k, v) ∷ m) = context_fact k (format_value v) ∷ result_facts m

  positive : Result ℕ → Result Bool
  positive (ok n) = ok (ltb 0 n)
  positive (err e) = err e

  unfoldable pub evaluate_condition : String → Value → Map Value → World → Result Bool × World
  unfolding positive result_facts context_fact
  evaluate_condition condition output previous w =
      if condition == ""
      then (ok true, w)
      else let (r, w') =
          query (context_fact "current_output" (format_value output) ∷ result_facts previous)
            condition w in
        (positive r, w')

  -- The loop of `findNextNode` over the edges that leave the node.
  unfoldable pub follow :
      Workflow → List Edge → Value → Map Value → World → Result (Option Node) × World
  follow wf [] output previous w = (ok none, w)
  follow wf (e ∷ es) output previous w =
      if e.condition == ""
      then (ok (find_node_by_id wf e.to), w)
      else let (r, w') = evaluate_condition e.condition output previous w in
        elim r [
          | err x ↦ (err x, w')
          | ok true ↦ (ok (find_node_by_id wf e.to), w')
          | ok false ↦ follow wf es output previous w'
        ]

  -- With no edge the loop makes no round, which is the early return.
  unfoldable pub find_next_node :
      Workflow → Node → Value → Map Value → World → Result (Option Node) × World
  find_next_node wf n output previous w = follow wf (edges_from n.id wf.edges) output previous w
