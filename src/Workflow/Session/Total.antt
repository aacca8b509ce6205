-- ===== src/Workflow/Session/Total.antt =====
-- Every run with a session ends, and leaves the instance in step with the result.
use Prim.Native.String.{◌++◌ as join}
use manglekit.Common.{
  ℕ, zero, suc, ◌+◌, ◌*◌, ◌<◌, ◌≡◌, ◌≢◌, refl, ◌⊎◌, inl, inr, ap, String, Bool-cases, Option, none,
  some, Option-cases, [], ◌∷◌, arith, Map, length, ◌==◌,
}
use manglekit.Workflow.{
  Value, Err, create_failed, Result, ok, err, Result-cases, WorkflowResult, Env,
}
use manglekit.Workflow.{Status}
use manglekit.Workflow.Loop.Termination.{budget, budget-visit_lt, budget-le}
use manglekit.Workflow.Loop.Outcome.{IsClean}
use manglekit.Workflow.Def.{NodeDef, WorkflowDef, get_node, find_start_node, keys}
use manglekit.Workflow.Def.Start.{find_start_node-none}
use manglekit.Workflow.Instance.{
  InstanceStatus, WorkflowInstance, set_current_node, get_variable, new_workflow_instance,
}
use manglekit.Workflow.Hydrated.{Executor}
use manglekit.Workflow.Session.{
  Store, SessionState, SessionRound, stop, again, session_round, session_loop, session_finish,
  first_state, begin, no_start_run, SessionRun, session_run_of, run_from, open_session,
  execute_with_session,
}
use manglekit.Workflow.Session.Rounds.{IsGoing, IsEnded, session_round-After, session_round-again}

SessionRound-cases :
    {World : Type 0} (r : SessionRound World)
    → ((s : SessionState World) × (r ≡ stop s)) ⊎ ((s : SessionState World) × (r ≡ again s))
SessionRound-cases (stop s) = inl (s, refl)
SessionRound-cases (again s) = inr (s, refl)

length-keys : (m : Map NodeDef) → length (keys m) ≡ length m
length-keys [] = refl
length-keys ((k, v) ∷ m) = omega (arith, length-keys m)

-- What the caller reads off the result and the instance.
pub record IsInStep (r : WorkflowResult) (inst : WorkflowInstance) : Type 0 where
  pub status :
      ((r.status ≡ Status.completed) × (inst.status ≡ InstanceStatus.completed))
      ⊎ ((r.status ≡ Status.failed) × (inst.status ≡ InstanceStatus.failed))
      ⊎ ((r.status ≡ Status.cancelled) × (inst.status ≡ InstanceStatus.paused))
  pub completed_clean : r.status ≡ Status.completed → (r.error ≡ none) × IsClean r.node_results
  pub cancelled_why : r.status ≡ Status.cancelled → r.error ≢ none

module _ (env : Env) (store : Store (env.World)) (x : Executor) (wf : WorkflowDef) where
  open env use {World}

  session_loop_total :
      (fuel : ℕ) (s : SessionState World)
      → IsGoing s
      → budget x.max_retries (keys wf.nodes) s.visited < fuel
      → (s' : SessionState World) × (session_loop env store x wf fuel s ≡ some s') × IsEnded s'
  unfolding session_loop
  session_loop_total zero s g lt = absurd (omega arith)
  session_loop_total (suc fuel) s g lt =
      let after = session_round-After env store x wf s g in
      elim (SessionRound-cases (session_round env store x wf s)) [
        | inl (s', z) ↦ (s', rw (z, session_loop), rw z at after)
        | inr (s', z) ↦
            let (known, fits) = session_round-again env store x wf s z in
            let id = s.instance_.current_node_id in
            let (g', same) = rw z at after in
            rw (z, session_loop)
              (session_loop_total fuel s' g' (
                rw same (
                  omega (
                    arith,
                    budget-visit_lt x.max_retries (keys wf.nodes) id s.visited known fits,
                  ))))
      ]

  session_finish-IsInStep :
      (s : SessionState World)
      → IsEnded s
      → let s' = session_finish env store x wf s in IsInStep s'.result s'.instance_
  unfolding session_finish
  session_finish-IsInStep s h = ground arith

  begin-cases :
      (inst : WorkflowInstance) (input : Value) (w : World)
      → ((i : WorkflowInstance) × (v : Value) × (begin env store x wf inst input w
            ≡ some (first_state env store x wf i v w)))
        ⊎ ((begin env store x wf inst input w ≡ none) × (wf.nodes ≡ []))
  unfolding begin
  begin-cases inst input w = elim (Bool-cases (inst.current_node_id == "")) [
    | inl z ↦ elim (Option-cases (find_start_node wf)) [
      | inl y ↦ inr (rw (z, y, begin), find_start_node-none wf y)
      | inr (n, y) ↦ inl (set_current_node n.id inst, input, rw (z, y, begin))
    ]
    | inr z ↦ elim (Option-cases (get_node wf inst.current_node_id)) [
      | inl y ↦ inl (inst, input, rw (z, y, begin))
      | inr (n, y) ↦ inl (inst, get_variable inst "current_input", rw (z, y, begin))
    ]
  ]

  first_state-IsGoing :
      (i : WorkflowInstance) (v : Value) (w : World) → IsGoing (first_state env store x wf i v w)
  first_state-IsGoing i v w = record { is_running = refl; no_error = refl; clean = λ _. tt }

  -- What a run that gets an instance returns.
  abbrev pub IsSound : SessionRun env store x wf → Type 0
  IsSound run =
      ((run.2 ≡ none) × IsInStep run.0 run.1) ⊎ ((run.0.status ≡ Status.failed) × (wf.nodes ≡ []))

  run_from_total :
      (inst : WorkflowInstance) (input : Value) (w : World)
      → (run : SessionRun env store x wf) × (run_from env store x wf
            (length wf.nodes * x.max_retries + 1)
            inst
            input
            w
          ≡ some run)
        × IsSound run
  unfolding run_from
  run_from_total inst input w =
      let fuel = length wf.nodes * x.max_retries + 1 in
      elim (begin-cases inst input w) [
        | inr (z, empty) ↦ (no_start_run env store x wf inst w, rw (z, run_from), inr (refl, empty))
        | inl (i, v, z) ↦
            let s = first_state env store x wf i v w in
            let (s', ends, ended) = session_loop_total fuel s (first_state-IsGoing i v w) (
              omega (
                arith,
                budget-le x.max_retries (keys wf.nodes) s.visited,
                ap (λ (t : ℕ). t * x.max_retries) (length-keys wf.nodes),
              )) in
            (
              session_run_of env store x wf (session_finish env store x wf s'),
              rw (z, run_from, ends),
              inl (refl, session_finish-IsInStep s' ended),
            )
      ]

  abbrev fresh : String → WorkflowInstance
  fresh session_id = record (new_workflow_instance wf.id session_id) {
    status = InstanceStatus.running;
  }

  -- What the store answers to the key of the session, and then to a new instance.
  abbrev looked_up : String → World → Result WorkflowInstance × World
  looked_up session_id w = store.get (join session_id (join ":" wf.id)) w

  abbrev created : String → World → Option Err × World
  created session_id w = store.create (fresh session_id) (looked_up session_id w).1

  -- The store has no instance, and refuses a new one with an error.
  abbrev pub CreateRefused : String → World → Err → Type 0
  CreateRefused session_id w e =
      (missing : Err) × ((looked_up session_id w).0 ≡ err missing)
      × ((created session_id w).0 ≡ some e)

  -- The instance that the store has, or a new one that it takes, and the world after.
  abbrev pub Opened : String → World → WorkflowInstance → World → Type 0
  Opened session_id w inst w' =
      (((looked_up session_id w).0 ≡ ok inst) × (w' ≡ (looked_up session_id w).1))
      ⊎ ((missing : Err) × ((looked_up session_id w).0 ≡ err missing)
          × ((created session_id w).0 ≡ none)
          × (inst ≡ fresh session_id)
          × (w' ≡ (created session_id w).1))

  open_session-cases :
      (session_id : String) (w : World)
      → ((e : Err) × CreateRefused session_id w e
          × ((open_session env store x wf session_id w).0 ≡ err (create_failed e)))
        ⊎ ((i : WorkflowInstance) × (w' : World) × Opened session_id w i w'
            × ((open_session env store x wf session_id w).0 ≡ ok i)
            × ((open_session env store x wf session_id w).1 ≡ w'))
  unfolding open_session
  open_session-cases session_id w =
      let w1 = (looked_up session_id w).1 in
      elim (Result-cases (looked_up session_id w).0) [
        | inl (i, z) ↦ inr (i, w1, inl (z, refl), rw (z, open_session), rw (z, open_session))
        | inr (e, z) ↦ elim (Option-cases (created session_id w).0) [
          | inl y ↦ inr (
            fresh session_id,
            (created session_id w).1,
            inr (e, z, y, refl, refl),
            rw (z, y, open_session),
            rw (z, y, open_session),
          )
          | inr (f, y) ↦ inl (f, (e, z, y), rw (z, y, open_session))
        ]
      ]

  -- With fuel for `max_retries` visits to each node and one round more, a run with a session ends,
  -- whatever the store, the node executor, the evaluator and the clock answer. Either the store
  -- has no instance of the session and refuses to create one, and its error is returned; or the run
  -- starts from the instance that the store has, or from a new one that it takes, and there is a
  -- result and an instance: both completed, both failed, or the result cancelled and the instance
  -- paused, with no error and no node result with one where it completed; or the workflow has no
  -- node, and the run failed.
  pub execute_with_session_total :
      (session_id : String) (input : Value) (w : World)
      → let fuel = length wf.nodes * x.max_retries + 1 in
        let out = execute_with_session env store x wf fuel session_id input w in
        ((e : Err) × CreateRefused session_id w e × (out ≡ err (create_failed e)))
        ⊎ ((run : SessionRun env store x wf) × (inst : WorkflowInstance) × (w' : World) × Opened
              session_id w inst w'
            × (run_from env store x wf fuel inst input w' ≡ some run)
            × (out ≡ ok (some run))
            × IsSound run)
  unfolding execute_with_session
  execute_with_session_total session_id input w = elim (open_session-cases session_id w) [
    | inl (e, refuses, z) ↦ inl (e, refuses, rw (z, execute_with_session))
    | inr (inst, w', opens, z, y) ↦
        let (run, e, sound) = run_from_total inst input w' in
        inr (run, inst, w', opens, e, rw (z, y, execute_with_session, e), sound)
  ]
