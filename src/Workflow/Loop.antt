-- ===== src/Workflow/Loop.antt =====
-- The walk of a workflow, `for currentNode != nil { … }`, which `ExecuteWorkflow` of
-- multiagent/workflow_executor.go and `Execute` of multiagent/hydrated_executor.go have word for
-- word over their two types of nodes. `Ops` is what differs between them.
pub mod Rounds
pub mod Termination
pub mod Outcome
pub mod Failure
use manglekit.Common.{
  ◌≡◌, refl, ◌⊎◌, inl, inr, ℕ, zero, suc, ◌+◌, String, Bool, true, false, Option, none, some, Map,
  lookup, insert, ltb, if◌then◌else◌,
}
use manglekit.Workflow.{
  Value, null, Err, max_retries_exceeded, Result, ok, err, Status, running, completed, failed,
  cancelled, NodeResult, WorkflowResult,
}

pub record Ops (World N : Type 0) : Type 0 where
  pub id : N → String
  pub ctx_err : World → Option Err × World
  pub exec : N → Value → Map Value → World → NodeResult × World
  -- `findErrorEdge`, and the node that the edge leads to
  pub error_edge : N → Option (Option N)
  pub next : N → Value → Map Value → World → Result (Option N) × World

-- The local variables of the loop.
pub record LoopState (World : Type 0) : Type 0 where
  pub world : World
  pub input : Value
  pub outputs : Map Value
  pub visited : Map ℕ
  pub last_error : Option Err
  pub result : WorkflowResult

-- A round ends the loop, by `break` or because there is no next node, or goes on at a node.
pub data Round (World N : Type 0) : Type 0 where
  stop : LoopState World → Round World N
  go : N → LoopState World → Round World N

pub Round-cases :
    {World N : Type 0} (r : Round World N)
    → ((s : LoopState World) × (r ≡ stop s)) ⊎ ((n : N) × (s : LoopState World) × (r ≡ go n s))
Round-cases (stop s) = inl (s, refl)
Round-cases (go n s) = inr (n, s, refl)

-- `m[k]` of a `map[string]int`
abbrev pub get_count : String → Map ℕ → ℕ
get_count k m = elim (lookup k m) [ none ↦ 0 | some n ↦ n ]

module _ {World N : Type 0} (ops : Ops World N) (max_retries : ℕ) where
  open ops use {id, ctx_err, exec, error_edge, next}

  abbrev pub set_status : Status → LoopState World → LoopState World
  set_status st s = record s { result = record (s.result) { status = st } }

  abbrev pub set_error : Status → Err → LoopState World → LoopState World
  set_error st e s = record s { result = record (s.result) { status = st; error = some e } }

  -- After a node that failed.
  unfoldable pub after_error : N → Err → LoopState World → Round World N
  after_error n e s =
      let s1 = record s { last_error = some e } in
      elim (error_edge n) [
        | none ↦ stop (set_status failed s1)
        | some none ↦ stop s1
        | some (some n') ↦ go n' s1
      ]

  unfoldable pub after_next : Result (Option N) → LoopState World → Round World N
  after_next (err e) s = stop (set_status failed (record s { last_error = some e }))
  after_next (ok none) s = stop s
  after_next (ok (some n)) s = go n s

  -- After a node that succeeded.
  unfoldable pub after_output : N → Value → LoopState World → Round World N
  after_output n v s =
      let outputs = insert (id n) v s.outputs in
      let (r, w) = next n v outputs s.world in
      after_next r (record s { outputs = outputs; input = v; world = w })

  unfoldable pub after_node : N → NodeResult → LoopState World → Round World N
  after_node n r s =
      let s1 = record s {
        result = record (s.result) { node_results = insert (id n) r s.result.node_results };
      } in
      elim r.error [ some e ↦ after_error n e s1 | none ↦ after_output n r.output s1 ]

  unfoldable pub visit : N → LoopState World → Round World N
  visit n s =
      let count = get_count (id n) s.visited + 1 in
      let s1 = record s { visited = insert (id n) count s.visited } in
      if ltb max_retries count
      then stop (set_error failed (max_retries_exceeded (id n)) s1)
      else let (r, w) = exec n s1.input s1.outputs s1.world in
        after_node n r (record s1 { world = w })

  -- One round of the loop.
  unfoldable pub round : N → LoopState World → Round World N
  round n s =
      let (e, w) = ctx_err s.world in
      let s1 = record s { world = w } in
      elim e [ some x ↦ stop (set_error cancelled x s1) | none ↦ visit n s1 ]

  -- `none` means that the fuel ran out.
  unfoldable pub loop : ℕ → N → LoopState World → Option (LoopState World)
  loop zero n s = none
  loop (suc fuel) n s = elim (round n s) [ stop s' ↦ some s' | go n' s' ↦ loop fuel n' s' ]

-- What follows the loop.
finish_by : Status → Option Err → Value → WorkflowResult → WorkflowResult
finish_by running (some e) input r = record r { status = failed; error = some e }
finish_by running none input r = record r { status = completed; output = input }
finish_by _ last input r = r

unfoldable pub finish : {World : Type 0} → LoopState World → WorkflowResult
unfolding finish_by
finish s = finish_by s.result.status s.last_error s.input s.result
