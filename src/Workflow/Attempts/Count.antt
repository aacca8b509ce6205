-- ===== src/Workflow/Attempts/Count.antt =====
-- How often the retry loop calls the node executor, and what it reports.
use manglekit.Common.{
  ℕ, zero, suc, ◌+◌, ◌≤◌, ◌≡◌, refl, ◌⊎◌, inl, inr, none, some, arith, Option-cases, String,
}
use manglekit.Workflow.{Value, null, Err, no_agents, ok, Result-cases, Agent, Node, NodeResult, Env}
use manglekit.Workflow.Attempts.{attempts, first_agent, fresh_result, execute_node}

module _ (env : Env) where
  open env use {World, execute, wait, find_agents}

  -- The result is an answer of the node executor, or an error with no output.
  abbrev pub IsOutcome : Node → Value → NodeResult → Type 0
  IsOutcome n input r =
      ((r.error ≡ none) × (a : Agent) × (w : World) × ((execute n input a w).0 ≡ ok r.output))
      ⊎ ((e : Err) × (r.error ≡ some e) × (r.output ≡ null))

  attempts-IsOutcome :
      (left attempt : ℕ) (n : Node) (input : Value) (a : Agent) (r : NodeResult) (w : World)
      → r.error ≡ none
      → r.output ≡ null
      → IsOutcome n input (attempts env left attempt n input a r w).0
  unfolding attempts
  attempts-IsOutcome zero attempt n input a r w he ho =
      elim (Result-cases (execute n input a w).0) [
        | inl (v, q) ↦ rw (q, attempts) (inl (he, a, w, q))
        | inr (e, q) ↦ rw (q, attempts) (inr (e, refl, ho))
      ]
  attempts-IsOutcome (suc left) attempt n input a r w he ho =
      let w1 = (execute n input a w).1 in
      let w2 = (wait (attempt + 1) w1).1 in
      let ih = attempts-IsOutcome left (attempt + 1) n input a r w2 he ho in
      elim (Result-cases (execute n input a w).0) [
        | inl (v, q) ↦ rw (q, attempts) (inl (he, a, w, q))
        | inr (e, q) ↦ elim (Option-cases (wait (attempt + 1) w1).0) [
          | inl z ↦ rw (q, z, attempts) ih
          | inr (x, z) ↦ rw (q, z, attempts) (inr (x, refl, ho))
        ]
      ]

  attempts-retry_le :
      (left attempt : ℕ) (n : Node) (input : Value) (a : Agent) (r : NodeResult) (w : World)
      → (attempts env left attempt n input a r w).0.retry_count ≤ attempt + left
  unfolding attempts
  attempts-retry_le zero attempt n input a r w = ground arith
  attempts-retry_le (suc left) attempt n input a r w =
      let w2 = (wait (attempt + 1) (execute n input a w).1).1 in
      ground (arith, attempts-retry_le left (attempt + 1) n input a r w2)

  module _ (calls : World → ℕ)
      (calls-execute : (n : Node) (v : Value) (a : Agent) (w : World)
        → calls (execute n v a w).1 ≡ calls w + 1)
      (calls-wait : (k : ℕ) (w : World) → calls (wait k w).1 ≡ calls w) where
    attempts-calls :
        (left attempt : ℕ) (n : Node) (input : Value) (a : Agent) (r : NodeResult) (w : World)
        → let (r', w') = attempts env left attempt n input a r w in
          calls w' + attempt ≡ calls w + r'.retry_count + 1
    unfolding attempts
    attempts-calls zero attempt n input a r w = ground (arith, calls-execute n input a w)
    attempts-calls (suc left) attempt n input a r w =
        let w1 = (execute n input a w).1 in
        let w2 = (wait (attempt + 1) w1).1 in
        ground (
          arith,
          calls-execute n input a w,
          calls-wait (attempt + 1) w1,
          attempts-calls left (attempt + 1) n input a r w2,
        )

    -- However calls are counted, if each call of the node executor counts as one and nothing else
    -- counts, a visit to a node for which an agent is found makes one call more than the retry
    -- count that it reports.
    pub execute_node-calls :
        (calls-find : (role : String) (w : World) → calls (find_agents role w).1 ≡ calls w)
        (max_retries : ℕ) (n : Node) (input : Value) (w : World) {a : Agent}
        → first_agent (find_agents n.agent w).0 ≡ some a
        → let (r, w') = execute_node env max_retries n input w in
          calls w' ≡ calls w + r.retry_count + 1
    unfolding execute_node
    execute_node-calls calls-find max_retries n input w {a} found =
        let w1 = (find_agents n.agent w).1 in
        let r = record (fresh_result n.id input) { agent_id = a.id } in
        rw (found, execute_node)
          (omega (arith, calls-find n.agent w, attempts-calls max_retries 0 n input a r w1))

  -- What one `executeNode` reports: either an answer of the node executor to this node and input,
  -- with no error, or an error with no output; and the retry count is within the limit.
  pub execute_node-IsOutcome :
      (max_retries : ℕ) (n : Node) (input : Value) (w : World)
      → let r = (execute_node env max_retries n input w).0 in
        IsOutcome n input r × (r.retry_count ≤ max_retries)
  unfolding execute_node
  execute_node-IsOutcome max_retries n input w =
      let (found, w1) = find_agents n.agent w in
      let with_agent = λ (a : Agent). record (fresh_result n.id input) { agent_id = a.id } in
      elim (Option-cases (first_agent found)) [
        | inl z ↦ rw (z, execute_node) (inr (no_agents n.agent, refl, refl), omega arith)
        | inr (a, z) ↦
            rw (z, execute_node)
              (
                attempts-IsOutcome max_retries 0 n input a (with_agent a) w1 refl refl,
                omega (arith, attempts-retry_le max_retries 0 n input a (with_agent a) w1),
              )
      ]
