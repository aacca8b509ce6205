-- ===== src/Workflow/Hydrated.antt =====
-- multiagent/hydrated_executor.go: the executor over a workflow definition that is already loaded,
-- which has no Datalog engine behind it. `Execute` walks as `ExecuteWorkflow` does.
pub mod Total
use mathlib.Core.Option
use manglekit.Common.{
  ℕ, ◌+◌, String, Bool, true, false, ◌==◌, Option, none, some, List, [], ◌∷◌, Map, lookup, insert,
  if◌then◌else◌, length,
}
use manglekit.Workflow.{
  Value, null, str, other, Err, workflow_is_nil, no_start_node, Result, ok, err, Agent, Node, Edge,
  NodeResult, Env,
}
use manglekit.Workflow.Graph.{error_edge}
use manglekit.Workflow.Attempts.{attempts, fresh_result}
use manglekit.Workflow.Loop.{Ops, LoopState, loop, finish}
use manglekit.Workflow.Execute.{Run, start_state, no_start}
use manglekit.Workflow.Def.{NodeDef, WorkflowDef, get_node, get_outgoing_edges, find_start_node}

-- The executor's fields; `has_finder` and `has_evaluator` say whether those two are set.
pub record Executor : Type 0 where
  pub workflow_def : Option WorkflowDef
  pub has_evaluator : Bool
  pub has_finder : Bool
  pub max_retries : ℕ

unfoldable pub find_error_edge : WorkflowDef → String → Option Edge
find_error_edge w id = error_edge id w.edges

module _ (env : Env) where
  open env use {World, ctx_err, find_agents, evaluate_condition, print}

  -- `fmt.Sprintf("%v", v)`
  abbrev pub show : Value → String
  show null = "<nil>"
  show (str s) = s
  show (other n) = print n

  abbrev show_config : Map Value → Map String
  show_config [] = []
  show_config ((k, v) ∷ m) = (k, show v) ∷ show_config m

  unfoldable pub to_workflow_node : NodeDef → Node
  to_workflow_node n = record {
    id = n.id;
    type = n.task_type;
    agent = n.agent_role;
    config = show_config n.config;
  }

  abbrev first_id : Result (List Agent) → String
  first_id (ok (a ∷ rest)) = a.id
  first_id _ = ""

  -- A missing finder, an error and an empty answer all leave the agent's id empty.
  unfoldable pub find_agent_id : Bool → String → World → String × World
  find_agent_id false role w = ("", w)
  find_agent_id true role w = let (r, w') = find_agents role w in (first_id r, w')

  unfoldable pub execute_node : Executor → NodeDef → Value → World → NodeResult × World
  execute_node x n input w =
      let (id, w1) = find_agent_id x.has_finder n.agent_role w in
      attempts env x.max_retries 0 (to_workflow_node n) input
        (record { id = id; role = n.agent_role })
        (record (fresh_result n.id input) { agent_id = id }) w1

  -- `for k, v := range previousResults { facts[k] = v }`
  abbrev pub merge : Map Value → Map Value → Map Value
  merge [] facts = facts
  merge ((k, v) ∷ m) facts = merge m (insert k v facts)

  -- The loop of `findNextNode`; without an evaluator a conditional edge is passed over.
  unfoldable pub follow :
      Executor
      → WorkflowDef
      → List Edge
      → Value
      → Map Value
      → World
      → Result (Option NodeDef) × World
  follow x wf [] output previous w = (ok none, w)
  follow x wf (e ∷ es) output previous w =
      let rest = follow x wf es output previous w in
      if e.condition == "" then (ok (get_node wf e.to), w) else elim x.has_evaluator [
        | false ↦ rest
        | true ↦
            let facts = merge previous (("current_output", output) ∷ []) in
            let (r, w') = evaluate_condition e.condition facts w in
            elim r [
              | err y ↦ (err y, w')
              | ok true ↦ (ok (get_node wf e.to), w')
              | ok false ↦ follow x wf es output previous w'
            ]
      ]

  unfoldable pub find_next_node :
      Executor → WorkflowDef → String → Value → Map Value → World → Result (Option NodeDef) × World
  find_next_node x wf id output previous w =
      follow x wf (get_outgoing_edges wf id) output previous w

  abbrev pub hydrated_ops : Executor → WorkflowDef → Ops World NodeDef
  hydrated_ops x wf = record {
    id = λ n. n.id;
    ctx_err = ctx_err;
    exec = λ n input previous w. execute_node x n input w;
    error_edge = λ n. Option.map (λ (e : Edge). get_node wf e.to) (find_error_edge wf n.id);
    next = λ n output previous w. find_next_node x wf n.id output previous w;
  }

  run_hydrated : ℕ → Executor → WorkflowDef → Value → World → Option (Run World)
  run_hydrated fuel x wf input w = elim (find_start_node wf) [
    | none ↦ some (no_start wf.id w)
    | some n ↦
        Option.map (λ (s : LoopState World). (finish s, none, s.world))
          (loop (hydrated_ops x wf) x.max_retries fuel n (start_state wf.id input w))
  ]

  -- `Execute`. The first `none` is a missing definition, an error with no result; the second is
  -- fuel that ran out.
  unfoldable pub execute : ℕ → Executor → Value → World → Result (Option (Run World))
  unfolding run_hydrated
  execute fuel x input w = elim x.workflow_def [
    | none ↦ err workflow_is_nil
    | some wf ↦ ok (run_hydrated fuel x wf input w)
  ]
