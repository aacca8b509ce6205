-- ===== src/Workflow/Session/Resume.antt =====
-- How a session goes on after a failed node, and after its workflow has changed.
use mathlib.Core.Path.{subst}
use manglekit.Common.{
  ℕ, suc, ◌≡◌, ◌≢◌, refl, String, true, false, none, some, List, [], ◌∷◌, ◌++◌, arith, ◌==◌,
  eq_refl, str_eq_false, contains, ◌∙◌, sym,
}
use manglekit.Workflow.{Value, Err, Edge, Env}
use manglekit.Workflow.{Status}
use manglekit.Workflow.Def.{NodeDef, WorkflowDef, get_node}
use manglekit.Workflow.Instance.{
  WorkflowInstance, set_current_node, mark_node_failed, is_node_completed,
}
use manglekit.Workflow.Hydrated.{Executor, find_error_edge}
use manglekit.Workflow.Session.{
  Store, SessionState, again, after_error, at_node, session_round, session_loop, session_finish,
  begin, SessionRun, run_from, first_state, stop, session_run_of, move_to,
}

contains-append_last : (xs : List String) (x : String) → contains (xs ++ (x ∷ [])) x ≡ true
contains-append_last [] x = ground (arith, eq_refl x)
contains-append_last (y ∷ xs) x = ground (arith, contains-append_last xs x)

-- Leaving a node marks it completed, unless the session stood at none.
pub set_current_node-completes :
    (id : String) (wi : WorkflowInstance)
    → (wi.current_node_id == "") ≡ false
    → contains (set_current_node id wi).completed_nodes wi.current_node_id ≡ true
unfolding set_current_node is_node_completed
set_current_node-completes id wi h =
    ground (arith, contains-append_last wi.completed_nodes wi.current_node_id)

module _ (env : Env) (store : Store (env.World)) (x : Executor) (wf : WorkflowDef) where
  open env use {World, ctx_err}

  -- A node that failed and has an error edge ends up among the failed nodes of its session and
  -- among the completed ones too, where the session stood at it and its id is not empty.
  pub error_edge-completes_failed :
      (n : NodeDef) (e : Err) (s : SessionState World) (edge : Edge)
      → s.instance_.current_node_id ≡ n.id
      → n.id ≢ ""
      → find_error_edge wf n.id ≡ some edge
      → (s' : SessionState World) × (after_error env store x wf n e s ≡ again s')
        × (contains s'.instance_.failed_nodes n.id ≡ true)
        × (contains s'.instance_.completed_nodes n.id ≡ true)
        × (s'.instance_.current_node_id ≡ edge.to)
  unfolding after_error mark_node_failed set_current_node
  error_edge-completes_failed n e s edge stands ne h =
      let inst = mark_node_failed n.id s.instance_ in
      let s1 = record s { last_error = some e; instance_ = inst } in
      let named = str_eq_false s.instance_.current_node_id "" (λ z. ne (sym stands ∙ z)) in
      let leaving = set_current_node-completes edge.to inst named in
      (
        move_to env store x wf edge.to s1,
        rw (h, after_error),
        contains-append_last s.instance_.failed_nodes n.id,
        subst (λ id. contains (set_current_node edge.to inst).completed_nodes id ≡ true) stands
            leaving,
        refl,
      )

  -- A session that stands at a node which the workflow no longer has is reported as completed, with
  -- the caller's input for its output, though no node was executed; that is if the context is not
  -- done when the run begins.
  pub run_from-unknown_node :
      (fuel : ℕ) (inst : WorkflowInstance) (input : Value) (w : World)
      → inst.current_node_id ≢ ""
      → get_node wf inst.current_node_id ≡ none
      → (ctx_err w).0 ≡ none
      → (run : SessionRun env store x wf) × (run_from env store x wf (suc fuel) inst input w
          ≡ some run)
        × (run.0.status ≡ Status.completed)
        × (run.0.output ≡ input)
        × (run.0.node_results ≡ [])
  unfolding run_from
  run_from-unknown_node fuel inst input w ne unknown live =
      let s = first_state env store x wf inst input w in
      let named = str_eq_false inst.current_node_id "" ne in
      let begun : begin env store x wf inst input w ≡ some s =
        unfold begin in rw (named, unknown, begin) in
      let ended : session_round env store x wf s ≡ stop (record s { world = (ctx_err w).1 }) =
        unfold session_round at_node in rw (live, named, unknown, session_round, at_node) in
      let looped : session_loop env store x wf (suc fuel) s
          ≡ some (record s { world = (ctx_err w).1 }) =
        unfold session_loop in rw (ended, session_loop) in
      (
        session_run_of env store x wf
            (session_finish env store x wf (record s { world = (ctx_err w).1 })),
        rw (begun, looped, run_from),
        unfold session_finish in refl,
        unfold session_finish in refl,
        unfold session_finish in refl,
      )
