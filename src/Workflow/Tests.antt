-- ===== src/Workflow/Tests.antt =====
-- A small workflow: a node `a` that leads on to `b`, and to `c` when it fails.
use manglekit.Common.{
  ℕ, zero, suc, ◌+◌, ◌≡◌, ◌≢◌, refl, ◌↔◌, ◌⊎◌, String, true, none, some, List, [], ◌∷◌, Map, All,
  contains, lookup, arith, eq_iff,
}
use manglekit.Workflow.{
  str, Err, external, create_failed, ok, err, Status, Node, Edge, Workflow, Env,
}
use manglekit.Workflow.Attempts.{execute_node, first_agent}
use manglekit.Workflow.Attempts.Count.{execute_node-calls}
use manglekit.Workflow.Loop.{LoopState, after_error, loop, finish, go}
use manglekit.Workflow.Loop.Outcome.{IsHonest}
use manglekit.Workflow.Loop.Failure.{error_edge-ne_completed}
use manglekit.Workflow.Execute.{start_state, Run, workflow_ops, execute_workflow}
use manglekit.Workflow.Execute.Total.{execute_workflow_total}
use manglekit.Workflow.Graph.{
  error_edge, find_error_edge, find_node_by_id, find_node, find_next_node, edges_from, follow,
}
use manglekit.Workflow.Def.{NodeDef, WorkflowDef, find_start_node, validate}
use manglekit.Workflow.Def.Least.{SameMap}
use manglekit.Workflow.Def.Start.{find_start_node-order}
use manglekit.Workflow.Def.Validate.{Connects, validate_iff}
use manglekit.Workflow.Instance.{
  WorkflowInstance, new_workflow_instance, set_current_node, is_node_completed,
}
use manglekit.Workflow.Instance.Progress.{
  NoRepeat, move, complete, fail, count, apply_all, Update, times, apply_all_lem,
}
use manglekit.Workflow.Instance
use manglekit.Workflow.Loop
use manglekit.Workflow.Attempts
use manglekit.Workflow.Hydrated.{Executor, execute}
use manglekit.Workflow.Hydrated.Total.{hydrated_execute_total}
use manglekit.Workflow.Session.{
  Store, SessionState, SessionRun, run_from, execute_with_session, first_state,
}
use manglekit.Workflow.Session.Total.{CreateRefused, Opened, IsSound, execute_with_session_total}

-- The world counts the calls of the node executor; the first one fails.
abbrev env : Env
env = record {
  World = ℕ;
  ctx_err = λ w. (none, w);
  execute = λ n v a w. (elim w [ zero ↦ err (external 7) | suc k ↦ ok (str "done") ], suc w);
  wait = λ k w. (none, w);
  find_agents = λ role w. (ok (record { id = "agent-1"; role = role } ∷ []), w);
  query = λ facts q w. (ok 1, w);
  evaluate_condition = λ c facts w. (ok true, w);
  print = λ n. "n";
}

abbrev node : String → Node
node id = record { id = id; type = "task"; agent = "worker"; config = [] }

abbrev edge : String → String → String → Edge
edge from to condition = record { from = from; to = to; condition = condition }

abbrev edges : List Edge
edges = edge "a" "b" "" ∷ edge "a" "c" "error" ∷ []

abbrev wf : Workflow
wf = record {
  id = "wf";
  name = "";
  version = "";
  nodes = node "a" ∷ node "b" ∷ node "c" ∷ [];
  edges = edges;
}

abbrev node_def : String → NodeDef
node_def id = record { id = id; agent_role = "worker"; task_type = "task"; config = [] }

abbrev nodes : Map NodeDef
nodes = ("a", node_def "a") ∷ ("b", node_def "b") ∷ ("c", node_def "c") ∷ []

abbrev wf_def : WorkflowDef
wf_def = record {
  id = "wf";
  name = "";
  version = "";
  root_node_id = "";
  nodes = nodes;
  edges = edges;
}

abbrev executor : Executor
executor = record {
  workflow_def = some wf_def;
  has_evaluator = true;
  has_finder = true;
  max_retries = 2;
}

abbrev instance_ : String → WorkflowInstance
instance_ at_id = record {
  workflow_id = "wf";
  session_id = "s";
  current_node_id = at_id;
  variables = [];
  metadata = [];
  loop_counters = [];
  completed_nodes = [];
  failed_nodes = [];
  status = Instance.running;
}

-- A store that has no session and takes every new one.
abbrev store : Store ℕ
store = record { get = λ k w. (err (external 1), w); create = λ i w. (none, w); update = λ i w. w }

execute_workflow_total_example :
    (run : Run ℕ) × (execute_workflow env 2 7 wf (str "in") 0 ≡ some run)
    × IsHonest env.ctx_err run.0
    × ((run.1 ≡ none) ⊎ (wf.nodes ≡ []))
execute_workflow_total_example = execute_workflow_total env 2 wf (str "in") 0

hydrated_execute_total_example :
    (run : Run ℕ) × (execute env 7 executor (str "in") 0 ≡ ok (some run))
    × IsHonest env.ctx_err run.0
    × ((run.1 ≡ none) ⊎ (nodes ≡ []))
hydrated_execute_total_example = hydrated_execute_total env executor wf_def (str "in") 0 refl

execute_with_session_total_example :
    ((e : Err) × CreateRefused env store executor wf_def "s" 0 e
      × (execute_with_session env store executor wf_def 7 "s" (str "in") 0 ≡ err (create_failed e)))
    ⊎ ((run : SessionRun env store executor wf_def) × (inst : WorkflowInstance) × (w' : ℕ) × Opened
          env store executor wf_def "s" 0 inst w'
        × (run_from env store executor wf_def 7 inst (str "in") w' ≡ some run)
        × (execute_with_session env store executor wf_def 7 "s" (str "in") 0 ≡ ok (some run))
        × IsSound env store executor wf_def run)
execute_with_session_total_example =
    execute_with_session_total env store executor wf_def "s" (str "in") 0

execute_node-calls_example :
    let (r, w') = execute_node env 2 (node "a") (str "in") 0 in w' ≡ 0 + r.retry_count + 1
execute_node-calls_example =
    execute_node-calls env (λ w. w) (λ n v a w. omega arith) (λ k w. refl) (λ role w. refl) 2
      (node "a") (str "in") 0 refl

same_nodes : SameMap nodes (("b", node_def "b") ∷ ("a", node_def "a") ∷ ("c", node_def "c") ∷ [])
unfolding lookup
same_nodes k = ground (arith, eq_iff "a" k, eq_iff "b" k)

find_start_node-order_example :
    find_start_node wf_def
    ≡ find_start_node (record wf_def {
      nodes = ("b", node_def "b") ∷ ("a", node_def "a") ∷ ("c", node_def "c") ∷ [];
    })
find_start_node-order_example =
    find_start_node-order wf_def
      (("b", node_def "b") ∷ ("a", node_def "a") ∷ ("c", node_def "c") ∷ [])
      (refl, (refl, (refl, tt))) (refl, (refl, (refl, tt))) (refl, (refl, (refl, tt)))
      (refl, (refl, (refl, tt))) same_nodes

validate_iff_example :
    (validate (some wf_def) ≡ none) ↔ ((wf_def.nodes ≡ []) ⊎ All (Connects wf_def) wf_def.edges)
validate_iff_example = validate_iff wf_def

abbrev updates : List Update
updates = move "a" ∷ complete "a" ∷ move "b" ∷ fail "b" ∷ count "n" ∷ count "n" ∷ move "c" ∷ []

apply_all_lem_example :
    let wi' = apply_all updates (instance_ "") in
    NoRepeat wi'.completed_nodes
    × ((id : String) → contains [] id ≡ true → contains wi'.completed_nodes id ≡ true)
    × ((name : String)
        → Instance.get_counter wi' name
          ≡ Instance.get_counter (instance_ "") name + times name updates)
apply_all_lem_example = apply_all_lem updates (instance_ "") tt

abbrev at_a : SessionState ℕ
at_a = first_state env store executor wf_def (instance_ "a") (str "in") 0

abbrev at_c : LoopState ℕ
at_c = record (start_state "wf" (str "in") 1) { last_error = some (external 7) }

abbrev ended : LoopState ℕ
unfolding loop
ended = elim (loop (workflow_ops env 2 wf) 2 3 (node "c") at_c) [ none ↦ at_c | some s ↦ s ]

error_edge-ne_completed_example : (finish ended).status ≢ Status.completed
unfolding after_error loop find_error_edge error_edge find_node_by_id find_node Loop.round
    Loop.visit lookup Loop.after_node execute_node Attempts.attempts Loop.after_output
    Loop.after_next find_next_node follow edges_from
error_edge-ne_completed_example =
    error_edge-ne_completed (workflow_ops env 2 wf) 2 (node "a") (external 7)
      (start_state "wf" (str "in") 1) {n' = node "c"} {s1 = at_c} {s2 = ended} 3 refl refl refl
