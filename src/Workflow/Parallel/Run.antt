-- ===== src/Workflow/Parallel/Run.antt =====
-- `ExecuteParallel` with `executeParallelGroup` and `mergeOutputs`. The nodes of a group have a
-- goroutine each: it takes a place of the semaphore, and then, in one turn, runs the node, sends what
-- it gave and leaves. Whose turn is next is the scheduler's choice, a parameter.
use mathlib.Core.Option
use manglekit.Common.{
  ℕ, ℤ, pos, negsuc, zero, suc, Bool, ◌&&◌, ltb, length, if◌then◌else◌, ◌*◌, ◌+◌, String, Option,
  none, some, List, [], ◌∷◌, Map, insert,
}
use manglekit.Workflow.{
  Value, null, str, other, Err, node_not_found, Workflow, Env, completed, failed,
}
use manglekit.Workflow.Graph.{find_node_by_id}
use manglekit.Workflow.Attempts.{execute_node}
use manglekit.Workflow.Execute.{Run, start_result, execute_workflow}
use manglekit.Workflow.Parallel.{identify_parallel_groups}

-- What the goroutine of a node sends.
pub record Sent : Type 0 where
  pub node_id : String
  pub output : Value
  pub error : Option Err

-- The texts among the outputs, in the order of a `range` loop.
unfoldable pub texts_of : Map Value → List String
texts_of [] = []
texts_of ((id, str s) ∷ m) = s ∷ texts_of m
texts_of ((id, null) ∷ m) = texts_of m
texts_of ((id, other n) ∷ m) = texts_of m

unfoldable pub outputs_of : List Sent → Map Value → Map Value
outputs_of [] m = m
outputs_of (r ∷ rs) m = outputs_of rs (insert r.node_id r.output m)

unfoldable pub errors_of : List Sent → List (String × Err)
errors_of [] = []
errors_of (r ∷ rs) =
    let rest = errors_of rs in elim r.error [ none ↦ rest | some e ↦ (r.node_id, e) ∷ rest ]

abbrev pub parallel_retries : ℕ
parallel_retries = 3

-- How Go boxes a slice of texts and a map, how errors are joined, and the scheduler.
pub record Host (World : Type 0) : Type 0 where
  pub boxed_texts : List String → Value
  pub boxed_map : Map Value → Value
  pub join : List (String × Err) → Err
  -- whether one of those that wait enters, if it can, before one of those that hold a place leaves
  pub enters : List String → List String → World → Bool
  -- the place of the next one among those that can move
  pub pick : List String → World → ℕ

-- A call that returns, one that waits for ever, and one that panics.
pub data Ran {ℓ} (A : Type ℓ) : Type ℓ where
  ran : A → Ran A
  blocked : Ran A
  panicked : Ran A

unfoldable pub prepend :
    {World : Type 0} → Sent → Option (Ran (List Sent × World)) → Option (Ran (List Sent × World))
prepend r none = none
prepend r (some (ran (rs, w))) = some (ran (r ∷ rs, w))
prepend r (some blocked) = some blocked
prepend r (some panicked) = some panicked

-- The one at a place, the last if there is none, and the others.
unfoldable pub take_at : ℕ → String → List String → String × List String
take_at zero a xs = (a, xs)
take_at (suc n) a [] = (a, [])
take_at (suc n) a (b ∷ bs) = let (id, others) = take_at n b bs in (id, a ∷ others)

module _ (env : Env) (host : Host env.World) where
  open env use {World}

  unfoldable pub merge_outputs : Map Value → Value
  merge_outputs [] = null
  merge_outputs (o ∷ m) = elim (texts_of (o ∷ m)) [
    | [] ↦ host.boxed_map (o ∷ m)
    | t ∷ ts ↦ host.boxed_texts (t ∷ ts)
  ]

  unfoldable pub send : Workflow → Value → String → World → Sent × World
  send wf input id w = elim (find_node_by_id wf id) [
    | none ↦ (record { node_id = id; output = null; error = some (node_not_found id) }, w)
    | some n ↦
        let (r, w') = execute_node env parallel_retries n input w in
        (record { node_id = id; output = r.output; error = r.error }, w')
  ]

  -- The turns of the goroutines of a group, until none is left: `waiting` are those before
  -- `semaphore <- struct{}{}`, `holding` those behind it. None of them can move if the semaphore has
  -- no room and none holds a place.
  module _ (capacity : ℕ) where
    unfoldable pub send_all :
        ℕ → Workflow → Value → List String → List String → World → Option (Ran (List Sent × World))
    send_all zero wf input waiting holding w = none
    send_all (suc fuel) wf input [] [] w = some (ran ([], w))
    send_all (suc fuel) wf input (a ∷ xs) [] w =
        let (id, others) = take_at (host.pick (a ∷ xs) w) a xs in
        let entered = send_all fuel wf input others (id ∷ []) w in
        if ltb 0 capacity then entered else some blocked
    send_all (suc fuel) wf input [] (b ∷ bs) w =
        let (id, others) = take_at (host.pick (b ∷ bs) w) b bs in
        let (r, w1) = send wf input id w in prepend r (send_all fuel wf input [] others w1)
    send_all (suc fuel) wf input (a ∷ xs) (b ∷ bs) w =
        let (id, others) = take_at (host.pick (a ∷ xs) w) a xs in
        let entered = send_all fuel wf input others (id ∷ b ∷ bs) w in
        let (done, left) = take_at (host.pick (b ∷ bs) w) b bs in
        let (r, w1) = send wf input done w in
        let sent = prepend r (send_all fuel wf input (a ∷ xs) left w1) in
        if ltb (length (b ∷ bs)) capacity && host.enters (a ∷ xs) (b ∷ bs) w then entered else sent

  unfoldable pub collect : Ran (List Sent × World) → Ran ((Map Value × List (String × Err)) × World)
  collect (ran (rs, w)) = ran ((outputs_of rs [], errors_of rs), w)
  collect blocked = blocked
  collect panicked = panicked

  module _ (max_parallel : ℤ) where
    -- With a turn to enter and one to leave for each node and one more, the turns do not run out.
    unfoldable pub execute_parallel_group :
        Workflow
        → List String
        → Value
        → World
        → Option (Ran ((Map Value × List (String × Err)) × World))
    execute_parallel_group wf ids input w = elim max_parallel [
      | negsuc k ↦ some panicked
      | pos n ↦ Option.map collect (send_all n (length ids * 2 + 1) wf input ids [] w)
    ]

    -- No result of a node is kept in the execution's result.
    unfoldable pub run_groups :
        Workflow → List (List String) → Value → World → Option (Ran (Run World))
    run_groups wf [] input w =
        some (ran (record (start_result wf.id) { status = completed; output = input }, none, w))
    run_groups wf (g ∷ gs) input w = elim (execute_parallel_group wf g input w) [
      | none ↦ none
      | some blocked ↦ some blocked
      | some panicked ↦ some panicked
      | some (ran ((outputs, errs), w')) ↦
          let rest = run_groups wf gs (merge_outputs outputs) w' in
          elim errs [
            | [] ↦ rest
            | e ∷ es ↦
                let joined = host.join (e ∷ es) in
                some (
                  ran (
                    record (start_result wf.id) { status = failed; error = some joined },
                    some joined,
                    w',
                  ))
          ]
    ]

    -- `none` means that the fuel, the turns, or the rounds of the search for groups, ran out.
    unfoldable pub execute_parallel : ℕ → Workflow → Value → World → Option (Ran (Run World))
    execute_parallel fuel wf input w = elim (identify_parallel_groups wf) [
      | none ↦ none
      | some [] ↦
          Option.map (λ (r : Run World). ran r)
            (execute_workflow env parallel_retries fuel wf input w)
      | some (g ∷ gs) ↦ run_groups wf (g ∷ gs) input w
    ]
