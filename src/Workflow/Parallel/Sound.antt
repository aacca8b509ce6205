-- ===== src/Workflow/Parallel/Sound.antt =====
-- How `ExecuteParallel` ends.
use manglekit.Common.{ℕ, ℤ, pos, suc, ◌≡◌, String, some, List, [], ◌∷◌, Map}
use manglekit.Workflow.{Value, Err, Workflow, Env, completed, failed}
use manglekit.Workflow.Execute.{Run, start_result}
use manglekit.Workflow.Loop.Outcome.{IsHonest}
use manglekit.Workflow.Parallel.Run.{Host, ran, execute_parallel_group, merge_outputs, run_groups}

module _ (env : Env) (host : Host env.World) (max_parallel : ℤ) where
  open env use {World}

  -- Each group's run ends with no error of a node, run on what the run before it gave.
  abbrev pub NoErrors : Workflow → List (List String) → Value → World → Type 0
  NoErrors wf [] input w = Unit
  NoErrors wf (g ∷ gs) input w =
      (outputs : Map Value) × (w' : World) × (execute_parallel_group env host max_parallel wf g
          input w
        ≡ some (ran ((outputs, []), w')))
      × NoErrors wf gs (merge_outputs env host outputs) w'

  abbrev Groups : Workflow → List (List String) → Value → World → Run World → Type 0
  Groups wf gs input w run = run_groups env host max_parallel wf gs input w ≡ some (ran run)

module _ (env : Env) (host : Host env.World) (n : ℕ) where
  open env use {World}

  -- The runs of the groups end in this run, as they should.
  abbrev EndsIn : Workflow → List (List String) → Value → World → Run World → Type 0
  EndsIn wf gs input w run =
      (run_groups env host (pos (suc n)) wf gs input w ≡ some (ran run))
      × IsHonest env.ctx_err run.0
      × (run.0.status ≡ completed → NoErrors env host (pos (suc n)) wf gs input w)

  abbrev failed_run : Workflow → List (String × Err) → World → Run World
  failed_run wf errs w = (
    record (start_result wf.id) { status = failed; error = some (host.join errs) },
    some (host.join errs),
    w,
  )
