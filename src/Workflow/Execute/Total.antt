-- ===== src/Workflow/Execute/Total.antt =====
-- Every execution of a workflow ends, and its result can be trusted.
use mathlib.Core.Option
use manglekit.Common.{
  ℕ, ◌+◌, ◌*◌, ◌≡◌, refl, ◌⊎◌, inl, inr, true, none, some, Option-cases, List, [], ◌∷◌, arith,
  contains, length, some_eq, ap,
}
use manglekit.Workflow.{Value, Node, Edge, Workflow, Env}
use manglekit.Workflow.Graph.{
  find_start_node, find_error_edge, find_node_by_id, find_next_node, edges_from,
}
use manglekit.Workflow.Graph.Walk.{
  ids_of, find_node_by_id-contains, find_start_node-contains, find_start_node-none, follow-contains,
}
use manglekit.Workflow.Loop.{finish}
use manglekit.Workflow.Loop.Rounds.{Leads}
use manglekit.Workflow.Loop.Termination.{budget-empty, loop_total}
use manglekit.Workflow.Loop.Outcome.{IsGoing, IsHonest, loop-IsEnded, finish-IsHonest}
use manglekit.Workflow.Execute.{start_state, no_start, Run, workflow_ops, execute_workflow}

length-ids_of : (ns : List Node) → length (ids_of ns) ≡ length ns
length-ids_of [] = refl
length-ids_of (n ∷ ns) = omega (arith, length-ids_of ns)

module _ (env : Env) (max_retries : ℕ) where
  open env use {World}

  error_edge-contains :
      (wf : Workflow) (n n' : Node)
      → Option.map (λ (e : Edge). find_node_by_id wf e.to) (find_error_edge wf n) ≡ some (some n')
      → contains (ids_of wf.nodes) n'.id ≡ true
  error_edge-contains wf n n' h = elim (Option-cases (find_error_edge wf n)) [
    | inl z ↦ absurd (cc (rw z at h))
    | inr (e, z) ↦ find_node_by_id-contains wf e.to n' (some_eq (rw z at h))
  ]

  -- An edge that a round follows leads to a node of the workflow.
  workflow_ops-closed :
      (wf : Workflow) (n n' : Node)
      → Leads (workflow_ops env max_retries wf) max_retries n n'
      → contains (ids_of wf.nodes) n'.id ≡ true
  unfolding find_next_node
  workflow_ops-closed wf n n' (inl h) = error_edge-contains wf n n' h
  workflow_ops-closed wf n n' (inr (v, m, w, h)) =
      follow-contains env wf (edges_from n.id wf.edges) v m w n' h

  -- With fuel for `max_retries` visits to each node and one round more, an execution ends, whatever
  -- the node executor, the policy engine and the clock answer. Its status is completed, failed or
  -- cancelled; a completed one has no error and no node result with one; a cancelled one has an error
  -- that the context answered. An error is returned beside the result only if the workflow has no node.
  pub execute_workflow_total :
      (wf : Workflow) (input : Value) (w : World)
      → (run : Run World) × (execute_workflow env max_retries
            (length wf.nodes * max_retries + 1)
            wf
            input
            w
          ≡ some run)
        × IsHonest env.ctx_err run.0
        × ((run.1 ≡ none) ⊎ (wf.nodes ≡ []))
  unfolding execute_workflow
  execute_workflow_total wf input w = elim (Option-cases (find_start_node wf)) [
    | inl z ↦
        (no_start wf.id w, rw (z, execute_workflow), ground arith, inr (find_start_node-none wf z))
    | inr (n, z) ↦
        let ids = ids_of wf.nodes in
        let ops = workflow_ops env max_retries wf in
        let s = start_state wf.id input w in
        let (s', ends) =
          loop_total ops max_retries ids (workflow_ops-closed wf)
            (length wf.nodes * max_retries + 1) n s (find_start_node-contains wf n z)
            (omega (
              arith,
              budget-empty max_retries ids,
              ap (λ (t : ℕ). t * max_retries) (length-ids_of wf.nodes),
            )) in
        let going : IsGoing s = record { is_running = refl; no_error = refl; clean = λ _. tt } in
        let ended =
          loop-IsEnded ops max_retries (length wf.nodes * max_retries + 1) n s going ends in
        (
          (finish s', none, s'.world),
          rw (z, execute_workflow, ends),
          finish-IsHonest env.ctx_err s' ended,
          inl refl,
        )
  ]
