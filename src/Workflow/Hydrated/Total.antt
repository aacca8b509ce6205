-- ===== src/Workflow/Hydrated/Total.antt =====
-- Every run of the hydrated executor ends, and its result can be trusted.
use mathlib.Core.Option
use manglekit.Common.{
  ℕ, ◌+◌, ◌*◌, ◌≡◌, refl, ◌⊎◌, inl, inr, ap, ◌∙◌, String, true, Option, none, some, some_eq,
  Option-cases, List, [], ◌∷◌, arith, Map, contains, length,
}
use manglekit.Workflow.{Value, ok, err, workflow_is_nil, Edge, Env}
use manglekit.Workflow.Loop.{finish}
use manglekit.Workflow.Loop.Rounds.{Leads}
use manglekit.Workflow.Loop.Termination.{budget-empty, loop_total}
use manglekit.Workflow.Loop.Outcome.{IsGoing, IsHonest, loop-IsEnded, finish-IsHonest}
use manglekit.Workflow.Execute.{start_state, no_start, Run}
use manglekit.Workflow.Def.{NodeDef, WorkflowDef, get_node, get_outgoing_edges, find_start_node}
use manglekit.Workflow.Def.Start.{
  node_ids, lookup-node_ids, find_start_node-node_ids, find_start_node-none,
}
use manglekit.Workflow.Hydrated.{
  Executor, find_error_edge, merge, follow, find_next_node, hydrated_ops, run_hydrated, execute,
}

length-node_ids : (m : Map NodeDef) → length (node_ids m) ≡ length m
length-node_ids [] = refl
length-node_ids ((k, n) ∷ m) = omega (arith, length-node_ids m)

get_node-node_ids :
    (wf : WorkflowDef) (id : String) (n : NodeDef)
    → get_node wf id ≡ some n
    → contains (node_ids wf.nodes) n.id ≡ true
unfolding get_node
get_node-node_ids wf id n h = lookup-node_ids id wf.nodes n h

module _ (env : Env) (x : Executor) where
  open env use {World, evaluate_condition}

  follow-node_ids :
      (wf : WorkflowDef) (es : List Edge) (output : Value) (previous : Map Value) (w : World)
      (n : NodeDef)
      → (follow env x wf es output previous w).0 ≡ ok (some n)
      → contains (node_ids wf.nodes) n.id ≡ true
  unfolding follow
  follow-node_ids wf [] output previous w n h = cc
  follow-node_ids wf (e ∷ es) output previous w n h =
      let facts = merge env previous (("current_output", output) ∷ []) in
      let w' = (evaluate_condition e.condition facts w).1 in
      ground (
        arith,
        get_node-node_ids wf e.to n,
        follow-node_ids wf es output previous w n,
        follow-node_ids wf es output previous w' n,
      )

  error_edge-node_ids :
      (wf : WorkflowDef) (n n' : NodeDef)
      → Option.map (λ (e : Edge). get_node wf e.to) (find_error_edge wf n.id) ≡ some (some n')
      → contains (node_ids wf.nodes) n'.id ≡ true
  error_edge-node_ids wf n n' h = elim (Option-cases (find_error_edge wf n.id)) [
    | inl z ↦ absurd (cc (rw z at h))
    | inr (e, z) ↦ get_node-node_ids wf e.to n' (some_eq (rw z at h))
  ]

  hydrated_ops-closed :
      (wf : WorkflowDef) (n n' : NodeDef)
      → Leads (hydrated_ops env x wf) x.max_retries n n'
      → contains (node_ids wf.nodes) n'.id ≡ true
  unfolding find_next_node
  hydrated_ops-closed wf n n' (inl h) = error_edge-node_ids wf n n' h
  hydrated_ops-closed wf n n' (inr (v, m, w, h)) =
      follow-node_ids wf (get_outgoing_edges wf n.id) v m w n' h

  run_hydrated_total :
      (wf : WorkflowDef) (input : Value) (w : World)
      → (run : Run World) × (run_hydrated env (length wf.nodes * x.max_retries + 1) x wf input w
          ≡ some run)
        × IsHonest env.ctx_err run.0
        × ((run.1 ≡ none) ⊎ (wf.nodes ≡ []))
  unfolding run_hydrated
  run_hydrated_total wf input w = elim (Option-cases (find_start_node wf)) [
    | inl z ↦
        (no_start wf.id w, rw (z, run_hydrated), ground arith, inr (find_start_node-none wf z))
    | inr (n, z) ↦
        let fuel = length wf.nodes * x.max_retries + 1 in
        let ops = hydrated_ops env x wf in
        let s = start_state wf.id input w in
        let (s', ends) =
          loop_total ops x.max_retries (node_ids wf.nodes) (hydrated_ops-closed wf) fuel n s
            (find_start_node-node_ids wf n z)
            (omega (
              arith,
              budget-empty x.max_retries (node_ids wf.nodes),
              ap (λ (t : ℕ). t * x.max_retries) (length-node_ids wf.nodes),
            )) in
        let going : IsGoing s = record { is_running = refl; no_error = refl; clean = λ _. tt } in
        let ended = loop-IsEnded ops x.max_retries fuel n s going ends in
        (
          (finish s', none, s'.world),
          rw (z, ends, run_hydrated),
          finish-IsHonest env.ctx_err s' ended,
          inl refl,
        )
  ]

  execute_lem :
      (fuel : ℕ) (wf : WorkflowDef) (input : Value) (w : World)
      → x.workflow_def ≡ some wf
      → execute env fuel x input w ≡ ok (run_hydrated env fuel x wf input w)
  unfolding execute
  execute_lem fuel wf input w given = λ i. elim (given i) [
    | none ↦ err workflow_is_nil
    | some d ↦ ok (run_hydrated env fuel x d input w)
  ]

  -- With a definition, and fuel for `max_retries` visits to each node and one round more, a run
  -- ends, whatever the node executor, the evaluator and the clock answer: its status is completed,
  -- failed or cancelled, a completed one has no error and no node result with one, a cancelled one
  -- has an error that the context answered, and an error is returned beside it only if there is no node.
  pub hydrated_execute_total :
      (wf : WorkflowDef) (input : Value) (w : World)
      → x.workflow_def ≡ some wf
      → (run : Run World) × (execute env (length wf.nodes * x.max_retries + 1) x input w
          ≡ ok (some run))
        × IsHonest env.ctx_err run.0
        × ((run.1 ≡ none) ⊎ (wf.nodes ≡ []))
  hydrated_execute_total wf input w given =
      let fuel = length wf.nodes * x.max_retries + 1 in
      let (run, e, honest, returned) = run_hydrated_total wf input w in
      (
        run,
        execute_lem fuel wf input w given ∙ ap (λ (o : Option (Run World)). ok o) e,
        honest,
        returned,
      )
