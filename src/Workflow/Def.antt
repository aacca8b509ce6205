-- ===== src/Workflow/Def.antt =====
-- `WorkflowDef` of core/workflow.go.
pub mod Least
pub mod Start
pub mod Validate
use mathlib.Core.Option
use manglekit.Common.{
  String, Bool, true, false, not, ◌&&◌, ◌==◌, Option, none, some, List, [], ◌∷◌, Map, lookup,
  str_ltb, contains, if◌then◌else◌,
}
use manglekit.Workflow.{Value, Edge}
use manglekit.Workflow.Graph.{edges_from}

pub record NodeDef : Type 0 where
  pub id : String
  pub agent_role : String
  pub task_type : String
  pub config : Map Value

pub record WorkflowDef : Type 0 where
  pub id : String
  pub name : String
  pub version : String
  pub root_node_id : String
  pub nodes : Map NodeDef
  pub edges : List Edge

-- The workflow of a method call is never `nil` but where the method asks; `Validate` takes an
-- `Option`.
unfoldable pub get_node : WorkflowDef → String → Option NodeDef
get_node w id = lookup id w.nodes

unfoldable pub get_outgoing_edges : WorkflowDef → String → List Edge
get_outgoing_edges w id = edges_from id w.edges

-- `hasIncoming`
abbrev pub targets : List Edge → List String
targets [] = []
targets (e ∷ es) = e.to ∷ targets es

-- One round of a loop that keeps the node with the least id. The order of the map is the order of
-- the list, which Go leaves open.
abbrev pub better : String → NodeDef → Option NodeDef → Option NodeDef
better id n none = some n
better id n (some b) = if str_ltb id b.id then some n else some b

-- The loop over the nodes whose key passes a test.
unfoldable pub least_node : (String → Bool) → Map NodeDef → Option NodeDef → Option NodeDef
least_node test [] best = best
least_node test ((id, n) ∷ m) best = least_node test m (if test id then better id n best else best)

or_else : Option NodeDef → Option NodeDef → Option NodeDef
or_else (some n) rest = some n
or_else none rest = rest

unfoldable pub find_start_node : WorkflowDef → Option NodeDef
unfolding or_else
find_start_node w =
    let root = if w.root_node_id == "" then none else get_node w w.root_node_id in
    let entry = least_node (λ id. not (contains (targets w.edges) id)) w.nodes none in
    let any = least_node (λ id. true) w.nodes none in or_else root (or_else entry any)

pub data ValidationError : Type 0 where
  unknown_node : String → ValidationError

abbrev pub keys {ℓ} : {V : Type ℓ} → Map V → List String
keys [] = []
keys ((k, v) ∷ m) = k ∷ keys m

unfoldable pub check_edges : List String → List Edge → Option ValidationError
check_edges ids [] = none
check_edges ids (e ∷ es) =
    let rest = check_edges ids es in
    if not (contains ids e.from)
    then some (unknown_node e.from)
    else if not (contains ids e.to)
    then some (unknown_node e.to)
    else rest

-- `none` is Go's `nil`: no error.
unfoldable pub validate : Option WorkflowDef → Option ValidationError
validate none = none
validate (some w) = elim w.nodes [ [] ↦ none | _ ∷ _ ↦ check_edges (keys w.nodes) w.edges ]
