-- ===== src/Workflow/Attempts.antt =====
-- The retry loop of `executeNode`, which both executors have word for word, and `executeNode` of
-- multiagent/workflow_executor.go. `maxRetries` is at least 0 wherever a node is executed: with a
-- negative number the walk stops before its first node, as it does with 0.
pub mod Count
use manglekit.Common.{
  ℕ, zero, suc, ◌+◌, ◌≤◌, ◌≡◌, refl, String, Option, none, some, List, [], ◌∷◌, arith,
}
use manglekit.Workflow.{Value, null, Err, no_agents, Result, ok, err, Agent, Node, NodeResult, Env}

abbrev pub with_output : NodeResult → ℕ → Value → NodeResult
with_output r attempt v = record r { output = v; retry_count = attempt }

abbrev pub with_error : NodeResult → ℕ → Err → NodeResult
with_error r attempt e = record r { error = some e; retry_count = attempt }

abbrev pub fresh_result : String → Value → NodeResult
fresh_result id input = record {
  node_id = id;
  agent_id = "";
  input = input;
  output = null;
  error = none;
  retry_count = 0;
}

-- `err != nil || len(agents) == 0`
abbrev pub first_agent : Result (List Agent) → Option Agent
first_agent (ok (a ∷ rest)) = some a
first_agent _ = none

module _ (env : Env) where
  open env use {World, execute, wait, find_agents}

  -- The attempts from number `attempt` on, with `left` more allowed after it.
  unfoldable pub attempts : ℕ → ℕ → Node → Value → Agent → NodeResult → World → NodeResult × World
  attempts zero attempt n input a r w =
      let (o, w1) = execute n input a w in
      elim o [ ok v ↦ (with_output r attempt v, w1) | err e ↦ (with_error r attempt e, w1) ]
  attempts (suc left) attempt n input a r w =
      let (o, w1) = execute n input a w in
      elim o [
        | ok v ↦ (with_output r attempt v, w1)
        | err e ↦
            let (stopped, w2) = wait (attempt + 1) w1 in
            elim stopped [
              | some x ↦ (with_error r attempt x, w2)
              | none ↦ attempts left (attempt + 1) n input a r w2
            ]
      ]

  unfoldable pub execute_node : ℕ → Node → Value → World → NodeResult × World
  execute_node max_retries n input w =
      let (found, w1) = find_agents n.agent w in
      let r = fresh_result n.id input in
      elim (first_agent found) [
        | none ↦ (record r { error = some (no_agents n.agent) }, w1)
        | some a ↦ attempts max_retries 0 n input a (record r { agent_id = a.id }) w1
      ]
