-- ===== src/Workflow/Instance.antt =====
-- `WorkflowInstance` of core/workflow.go: the state of an execution that is kept between runs.
pub mod Progress
use Prim.Native.String.{◌++◌ as join}
use manglekit.Common.{
  ℕ, ◌+◌, String, Bool, not, ◌&&◌, ◌==◌, none, some, List, [], ◌∷◌, ◌++◌, Map, lookup, insert,
  contains, if◌then◌else◌,
}
use manglekit.Workflow.{Value, null}
use manglekit.Workflow.Loop.{get_count}

-- WorkflowInstanceStatus
pub data InstanceStatus : Type 0 where
  pending running paused completed failed : InstanceStatus

pub record WorkflowInstance : Type 0 where
  pub workflow_id : String
  pub session_id : String
  pub current_node_id : String
  pub variables : Map Value
  pub metadata : Map String
  pub loop_counters : Map ℕ
  pub completed_nodes : List String
  pub failed_nodes : List String
  pub status : InstanceStatus

unfoldable pub new_workflow_instance : String → String → WorkflowInstance
new_workflow_instance workflow_id session_id = record {
  workflow_id = workflow_id;
  session_id = session_id;
  current_node_id = "";
  variables = [];
  metadata = [];
  loop_counters = [];
  completed_nodes = [];
  failed_nodes = [];
  status = pending;
}

unfoldable pub is_node_completed : WorkflowInstance → String → Bool
is_node_completed wi id = contains wi.completed_nodes id

unfoldable pub set_current_node : String → WorkflowInstance → WorkflowInstance
unfolding is_node_completed
set_current_node id wi =
    let nodes = wi.completed_nodes in
    record wi {
      completed_nodes =
          if not (wi.current_node_id == "") && not (is_node_completed wi wi.current_node_id)
          then nodes ++ (wi.current_node_id ∷ [])
          else nodes;
      current_node_id = id;
    }

unfoldable pub mark_node_completed : String → WorkflowInstance → WorkflowInstance
unfolding is_node_completed
mark_node_completed id wi =
    if not (is_node_completed wi id)
    then record wi { completed_nodes = wi.completed_nodes ++ (id ∷ []) }
    else wi

unfoldable pub mark_node_failed : String → WorkflowInstance → WorkflowInstance
mark_node_failed id wi = record wi { failed_nodes = wi.failed_nodes ++ (id ∷ []) }

-- A counter is an `int` that grows by one at a time; that 2 ^ 63 steps are not reached is assumed.
unfoldable pub increment_counter : String → WorkflowInstance → WorkflowInstance × ℕ
increment_counter name wi =
    let counters = insert name (get_count name wi.loop_counters + 1) wi.loop_counters in
    (record wi { loop_counters = counters }, get_count name counters)

unfoldable pub get_counter : WorkflowInstance → String → ℕ
get_counter wi name = get_count name wi.loop_counters

unfoldable pub set_variable : String → Value → WorkflowInstance → WorkflowInstance
set_variable k v wi = record wi { variables = insert k v wi.variables }

-- A missing key reads as `nil`.
unfoldable pub get_variable : WorkflowInstance → String → Value
get_variable wi k = elim (lookup k wi.variables) [ none ↦ null | some v ↦ v ]

unfoldable pub session_key : WorkflowInstance → String
session_key wi = join wi.session_id (join ":" wi.workflow_id)
