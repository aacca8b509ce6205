-- ===== src/Workflow/Session.antt =====
-- `ExecuteWithSession` of multiagent/hydrated_executor.go. The store of sessions is a parameter:
-- what `Get` returns is an instance of the executor's own, written back by `Update`, whose errors
-- the executor drops.
pub mod Rounds
pub mod Total
pub mod Resume
use Prim.Native.String.{◌++◌ as join}
use manglekit.Common.{
  ℕ, zero, suc, ◌+◌, String, ◌==◌, Option, none, some, List, [], ◌∷◌, Map, lookup, insert, ltb,
  if◌then◌else◌,
}
use manglekit.Workflow.{
  Value, null, Err, no_start_node, max_retries_exceeded, create_failed, Result, ok, err, Status,
  Edge, NodeResult, WorkflowResult, Env,
}
use manglekit.Workflow
use manglekit.Workflow.Loop.{get_count}
use manglekit.Workflow.Execute.{start_result}
use manglekit.Workflow.Def.{NodeDef, WorkflowDef, get_node, find_start_node}
use manglekit.Workflow.Instance.{
  InstanceStatus, WorkflowInstance, new_workflow_instance, set_current_node, mark_node_completed,
  mark_node_failed, set_variable, get_variable,
}
use manglekit.Workflow.Hydrated.{Executor, find_error_edge, execute_node, find_next_node}

-- A `SessionStateStore` as the executor uses it.
pub record Store (World : Type 0) : Type 0 where
  pub get : String → World → Result WorkflowInstance × World
  pub create : WorkflowInstance → World → Option Err × World
  pub update : WorkflowInstance → World → World

pub record SessionState (World : Type 0) : Type 0 where
  pub world : World
  pub instance_ : WorkflowInstance
  pub input : Value
  pub outputs : Map Value
  pub visited : Map ℕ
  pub last_error : Option Err
  pub result : WorkflowResult

-- A round ends the loop by `break`, or the loop goes on.
pub data SessionRound (World : Type 0) : Type 0 where
  stop : SessionState World → SessionRound World
  again : SessionState World → SessionRound World

module _ {World : Type 0} where
  abbrev pub end_with : Status → InstanceStatus → SessionState World → SessionState World
  end_with st inst s = record s {
    result = record (s.result) { status = st };
    instance_ = record (s.instance_) { status = inst };
  }

  abbrev pub end_error : Status → InstanceStatus → Err → SessionState World → SessionState World
  end_error st inst e s = record s {
    result = record (s.result) { status = st; error = some e };
    instance_ = record (s.instance_) { status = inst };
  }

module _ (env : Env) (store : Store (env.World)) (x : Executor) (wf : WorkflowDef) where
  open env use {World, ctx_err}

  -- `e.sessionStore.Update(ctx, instance)`
  abbrev pub save : SessionState World → SessionState World
  save s = record s { world = store.update s.instance_ s.world }

  -- `instance.SetCurrentNode(id)`, and the update after it
  abbrev pub move_to : String → SessionState World → SessionState World
  move_to id s = save (record s { instance_ = set_current_node id s.instance_ })

  unfoldable pub after_error : NodeDef → Err → SessionState World → SessionRound World
  after_error n e s =
      let s1 = record s { last_error = some e; instance_ = mark_node_failed n.id s.instance_ } in
      elim (find_error_edge wf n.id) [
        | none ↦ stop (end_with Status.failed InstanceStatus.failed s1)
        | some edge ↦ again (move_to edge.to s1)
      ]

  unfoldable pub after_next : Result (Option NodeDef) → SessionState World → SessionRound World
  after_next (err e) s =
      stop (end_with Status.failed InstanceStatus.failed (record s { last_error = some e }))
  after_next (ok none) s =
      stop (record s { instance_ = record (s.instance_) { status = InstanceStatus.completed } })
  after_next (ok (some n)) s = again (move_to n.id s)

  unfoldable pub after_output : NodeDef → Value → SessionState World → SessionRound World
  after_output n v s =
      let outputs = insert n.id v s.outputs in
      let inst = mark_node_completed n.id (set_variable (join n.id "_output") v s.instance_) in
      let (r, w) = find_next_node env x wf n.id v outputs s.world in
      after_next r (record s { outputs = outputs; instance_ = inst; input = v; world = w })

  unfoldable pub after_node : NodeDef → NodeResult → SessionState World → SessionRound World
  after_node n r s =
      let s1 = record s {
        result = record (s.result) { node_results = insert n.id r s.result.node_results };
      } in
      elim r.error [ some e ↦ after_error n e s1 | none ↦ after_output n r.output s1 ]

  unfoldable pub visit : String → NodeDef → SessionState World → SessionRound World
  visit id n s =
      let count = get_count id s.visited + 1 in
      let s1 = record s { visited = insert id count s.visited } in
      if ltb x.max_retries count
      then stop (end_error Status.failed InstanceStatus.failed (max_retries_exceeded id) s1)
      else let s2 =
          save (record s1 { instance_ = set_variable "current_input" s1.input s1.instance_ }) in
        let (r, w) = execute_node env x n s2.input s2.world in
        after_node n r (record s2 { world = w })

  unfoldable pub at_node : String → SessionState World → SessionRound World
  at_node id s =
      if id == "" then stop s else elim (get_node wf id) [ none ↦ stop s | some n ↦ visit id n s ]

  -- One round of the `for` loop.
  unfoldable pub session_round : SessionState World → SessionRound World
  session_round s =
      let (e, w) = ctx_err s.world in
      let s1 = record s { world = w } in
      elim e [
        | some y ↦ stop (save (end_error Status.cancelled InstanceStatus.paused y s1))
        | none ↦ at_node s1.instance_.current_node_id s1
      ]

  -- `none` means that the fuel ran out.
  unfoldable pub session_loop : ℕ → SessionState World → Option (SessionState World)
  session_loop zero s = none
  session_loop (suc fuel) s = elim (session_round s) [
    | stop s' ↦ some s'
    | again s' ↦ session_loop fuel s'
  ]

  session_finish_by : Status → Option Err → SessionState World → SessionState World
  session_finish_by Status.running (some e) s = end_error Status.failed InstanceStatus.failed e s
  session_finish_by Status.running none s = record s {
    result = record (s.result) { status = Status.completed; output = s.input };
    instance_ = record (s.instance_) { status = InstanceStatus.completed };
  }
  session_finish_by _ last s = s

  -- What follows the loop, with the last update.
  unfoldable pub session_finish : SessionState World → SessionState World
  unfolding session_finish_by
  session_finish s = save (session_finish_by s.result.status s.last_error s)

  -- The instance of the session: the stored one, or a new one that is stored.
  unfoldable pub open_session : String → World → Result WorkflowInstance × World
  open_session session_id w =
      let (found, w1) = store.get (join session_id (join ":" wf.id)) w in
      let fresh = record (new_workflow_instance wf.id session_id) {
        status = InstanceStatus.running;
      } in
      let (failed, w2) = store.create fresh w1 in
      elim found [
        | ok inst ↦ (ok inst, w1)
        | err e ↦ elim failed [ some y ↦ (err (create_failed y), w2) | none ↦ (ok fresh, w2) ]
      ]

  -- `for _, nodeID := range instance.CompletedNodes { visited[nodeID] = 1 }`
  abbrev pub visited_once : List String → Map ℕ → Map ℕ
  visited_once [] m = m
  visited_once (id ∷ ids) m = visited_once ids (insert id 1 m)

  -- `for k, v := range instance.Variables { nodeResults[k] = v }`
  abbrev pub copy_variables : Map Value → Map Value → Map Value
  copy_variables [] m = m
  copy_variables ((k, v) ∷ vs) m = copy_variables vs (insert k v m)

  abbrev pub first_state : WorkflowInstance → Value → World → SessionState World
  first_state inst input w = record {
    world = w;
    instance_ = inst;
    input = input;
    outputs = copy_variables inst.variables [];
    visited = visited_once inst.completed_nodes [];
    last_error = none;
    result = start_result wf.id;
  }

  -- Where a run begins: at the node where the session stands, with the input stored there if the
  -- workflow still has the node, or at the start node. `none`: there is no start node.
  unfoldable pub begin : WorkflowInstance → Value → World → Option (SessionState World)
  begin inst input w =
      if inst.current_node_id == ""
      then elim (find_start_node wf) [
        | none ↦ none
        | some n ↦ some (first_state (set_current_node n.id inst) input w)
      ]
      else elim (get_node wf inst.current_node_id) [
        | none ↦ some (first_state inst input w)
        | some n ↦ some (first_state inst (get_variable inst "current_input") w)
      ]

  -- What is returned with no error: the result, the instance and the world; the error beside them
  -- is that of a workflow with no start node.
  abbrev pub SessionRun : Type 0
  SessionRun = WorkflowResult × WorkflowInstance × Option Err × World

  abbrev pub session_run_of : SessionState World → SessionRun
  session_run_of s = (s.result, s.instance_, none, s.world)

  abbrev pub no_start_run : WorkflowInstance → World → SessionRun
  no_start_run inst w = (
    record (start_result wf.id) { status = Status.failed; error = some no_start_node },
    inst,
    some no_start_node,
    w,
  )

  unfoldable pub run_from : ℕ → WorkflowInstance → Value → World → Option SessionRun
  run_from fuel inst input w = elim (begin inst input w) [
    | none ↦ some (no_start_run inst w)
    | some s ↦ elim (session_loop fuel s) [
      | none ↦ none
      | some s' ↦ some (session_run_of (session_finish s'))
    ]
  ]

  -- `ExecuteWithSession` where the definition, the store and the session's id are given; without
  -- a store or an id it is `Execute`.
  unfoldable pub execute_with_session : ℕ → String → Value → World → Result (Option SessionRun)
  execute_with_session fuel session_id input w =
      let (opened, w1) = open_session session_id w in
      elim opened [ err e ↦ err e | ok inst ↦ ok (run_from fuel inst input w1) ]
