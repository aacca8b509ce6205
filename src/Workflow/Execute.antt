-- ===== src/Workflow/Execute.antt =====
-- `ExecuteWorkflow` of multiagent/workflow_executor.go.
pub mod Total
use mathlib.Core.Option
use manglekit.Common.{◌+◌, ℕ, String, Option, none, some, Map, []}
use manglekit.Workflow.{
  Value, null, Err, no_start_node, Node, Edge, Workflow, running, failed, NodeResult,
  WorkflowResult, Env,
}
use manglekit.Workflow.Graph.{find_start_node, find_error_edge, find_node_by_id, find_next_node}
use manglekit.Workflow.Attempts.{execute_node}
use manglekit.Workflow.Loop.{Ops, LoopState, loop, finish}

abbrev pub start_result : String → WorkflowResult
start_result id = record {
  workflow_id = id;
  status = running;
  output = null;
  node_results = [];
  error = none;
}

abbrev pub start_state : {World : Type 0} → String → Value → World → LoopState World
start_state id input w = record {
  world = w;
  input = input;
  outputs = [];
  visited = [];
  last_error = none;
  result = start_result id;
}

-- What a run leaves: the result, the error that is returned beside it, and the world.
abbrev pub Run : Type 0 → Type 0
Run World = WorkflowResult × Option Err × World

abbrev pub no_start : {World : Type 0} → String → World → Run World
no_start id w = (
  record (start_result id) { status = failed; error = some no_start_node },
  some no_start_node,
  w,
)

module _ (env : Env) (max_retries : ℕ) where
  open env use {World, ctx_err}

  abbrev pub workflow_ops : Workflow → Ops World Node
  workflow_ops wf = record {
    id = λ n. n.id;
    ctx_err = ctx_err;
    exec = λ n input previous w. execute_node env max_retries n input w;
    error_edge = λ n. Option.map (λ (e : Edge). find_node_by_id wf e.to) (find_error_edge wf n);
    next = find_next_node env wf;
  }

  -- `none` means that the fuel ran out.
  unfoldable pub execute_workflow : ℕ → Workflow → Value → World → Option (Run World)
  execute_workflow fuel wf input w = elim (find_start_node wf) [
    | none ↦ some (no_start wf.id w)
    | some n ↦
        Option.map (λ (s : LoopState World). (finish s, none, s.world))
          (loop (workflow_ops wf) max_retries fuel n (start_state wf.id input w))
  ]
