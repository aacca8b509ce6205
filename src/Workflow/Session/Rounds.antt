-- ===== src/Workflow/Session/Rounds.antt =====
-- One round of a run with a session: what it counts, and what it leaves.
use manglekit.Common.{
  ℕ, ◌+◌, ◌≤◌, ◌≡◌, ◌≢◌, ◌⊎◌, inl, inr, String, true, none, Bool-cases, Option-cases, arith, Map,
  lookup, insert, ltb, ltb→le, ◌==◌, contains,
}
use manglekit.Workflow.{Value, Err, NodeResult, Env}
use manglekit.Workflow.{Status}
use manglekit.Workflow.Loop.{get_count}
use manglekit.Workflow.Loop.Outcome.{IsClean, IsClean-insert}
use manglekit.Workflow.Def.{NodeDef, WorkflowDef, get_node, keys}
use manglekit.Workflow.Def.Validate.{contains-lookup}
use manglekit.Workflow.Instance.{InstanceStatus, set_variable}
use manglekit.Workflow.Hydrated.{Executor, execute_node}
use manglekit.Workflow.Session.{
  Store, SessionState, SessionRound, stop, again, save, after_error, after_next, after_output,
  after_node, visit, at_node, session_round,
}

module _ {World : Type 0} where
  -- Between two rounds.
  pub record IsGoing (s : SessionState World) : Type 0 where
    pub is_running : s.result.status ≡ Status.running
    pub no_error : s.result.error ≡ none
    pub clean : s.last_error ≡ none → IsClean s.result.node_results

  -- After the last round: the status of the instance follows that of the result.
  pub record IsEnded (s : SessionState World) : Type 0 where
    pub status :
        (s.result.status ≡ Status.running)
        ⊎ ((s.result.status ≡ Status.failed) × (s.instance_.status ≡ InstanceStatus.failed))
        ⊎ ((s.result.status ≡ Status.cancelled) × (s.instance_.status ≡ InstanceStatus.paused))
    pub no_error : s.result.status ≡ Status.running → s.result.error ≡ none
    pub clean :
        s.result.status ≡ Status.running → s.last_error ≡ none → IsClean s.result.node_results
    pub why : s.result.status ≡ Status.cancelled → s.result.error ≢ none

module _ (env : Env) (store : Store (env.World)) (x : Executor) (wf : WorkflowDef) where
  open env use {World, ctx_err}

  -- What holds after a round: the budget of visits is spent, or the loop has ended.
  abbrev pub After : Map ℕ → SessionRound World → Type 0
  After v (stop s) = IsEnded s
  After v (again s) = IsGoing s × (s.visited ≡ v)

  after_error-After :
      (n : NodeDef) (e : Err) (s : SessionState World)
      → s.result.status ≡ Status.running
      → s.result.error ≡ none
      → After s.visited (after_error env store x wf n e s)
  unfolding after_error
  after_error-After n e s st er = ground arith

  after_output-After :
      (n : NodeDef) (v : Value) (s : SessionState World)
      → IsGoing s
      → After s.visited (after_output env store x wf n v s)
  unfolding after_output after_next
  after_output-After n v s h = ground arith

  after_node-After :
      (n : NodeDef) (r : NodeResult) (s : SessionState World)
      → IsGoing s
      → After s.visited (after_node env store x wf n r s)
  unfolding after_node
  after_node-After n r s h =
      let s1 = record s {
        result = record (s.result) { node_results = insert n.id r s.result.node_results };
      } in
      elim (Option-cases r.error) [
        | inl z ↦
            rw (z, after_node)
              (after_output-After n r.output s1 (record {
                is_running = h.is_running;
                no_error = h.no_error;
                clean = λ l. IsClean-insert n.id r s.result.node_results z (h.clean l);
              }))
        | inr (e, z) ↦ rw (z, after_node) (after_error-After n e s1 h.is_running h.no_error)
      ]

  visit-After :
      (id : String) (n : NodeDef) (s : SessionState World)
      → IsGoing s
      → After (insert id (get_count id s.visited + 1) s.visited) (visit env store x wf id n s)
  unfolding visit
  visit-After id n s h =
      let count = get_count id s.visited + 1 in
      let s1 = record s { visited = insert id count s.visited } in
      let s2 =
        save env store x wf
          (record s1 { instance_ = set_variable "current_input" s1.input s1.instance_ }) in
      let (r, w) = execute_node env x n s2.input s2.world in
      elim (Bool-cases (ltb x.max_retries count)) [
        | inl z ↦ rw (z, visit) (ground arith)
        | inr z ↦
            rw (z, visit)
              (after_node-After n r (record s2 { world = w })
                (record { is_running = h.is_running; no_error = h.no_error; clean = h.clean }))
      ]

  visit-again :
      (id : String) (n : NodeDef) (s : SessionState World) {s' : SessionState World}
      → visit env store x wf id n s ≡ again s'
      → get_count id s.visited + 1 ≤ x.max_retries
  unfolding visit
  visit-again id n s h =
      let count = get_count id s.visited + 1 in
      elim (Bool-cases (ltb x.max_retries count)) [
        | inl z ↦ absurd (cc (rw (z, visit) at h))
        | inr z ↦ ltb→le x.max_retries count z
      ]

  -- A round at the node with this id that goes on.
  abbrev pub Spends : String → SessionState World → Type 0
  Spends id s = (contains (keys wf.nodes) id ≡ true) × (get_count id s.visited + 1 ≤ x.max_retries)

  at_node-again :
      (id : String) (s : SessionState World) {s' : SessionState World}
      → at_node env store x wf id s ≡ again s'
      → Spends id s
  unfolding at_node get_node
  at_node-again id s h = elim (Bool-cases (id == "")) [
    | inl z ↦ absurd (cc (rw (z, at_node) at h))
    | inr z ↦
        let h' = rw (z, at_node) at h in
        elim (Option-cases (lookup id wf.nodes)) [
          | inl y ↦ absurd (cc (rw y at h'))
          | inr (n, y) ↦ (contains-lookup id wf.nodes y, visit-again id n s (rw y at h'))
        ]
  ]

  at_node-After :
      (id : String) (s : SessionState World)
      → IsGoing s
      → After (insert id (get_count id s.visited + 1) s.visited) (at_node env store x wf id s)
  unfolding at_node
  at_node-After id s h =
      let ended : IsEnded s = record {
        status = inl h.is_running;
        no_error = λ _. h.no_error;
        clean = λ _. h.clean;
        why = λ c. absurd (cc (h.is_running, c));
      } in
      elim (Bool-cases (id == "")) [
        | inl z ↦ rw (z, at_node) ended
        | inr z ↦ elim (Option-cases (get_node wf id)) [
          | inl y ↦ rw (z, y, at_node) ended
          | inr (n, y) ↦ rw (z, y, at_node) (visit-After id n s h)
        ]
      ]

  abbrev pub next_visits : SessionState World → Map ℕ
  next_visits s =
      let id = s.instance_.current_node_id in insert id (get_count id s.visited + 1) s.visited

  pub session_round-After :
      (s : SessionState World) → IsGoing s → After (next_visits s) (session_round env store x wf s)
  unfolding session_round
  session_round-After s h =
      let s1 = record s { world = (ctx_err s.world).1 } in
      elim (Option-cases (ctx_err s.world).0) [
        | inl z ↦
            rw (z, session_round)
              (at_node-After s.instance_.current_node_id s1
                (record { is_running = h.is_running; no_error = h.no_error; clean = h.clean }))
        | inr (e, z) ↦ rw (z, session_round) (ground arith)
      ]

  pub session_round-again :
      (s : SessionState World) {s' : SessionState World}
      → session_round env store x wf s ≡ again s'
      → Spends s.instance_.current_node_id s
  unfolding session_round
  session_round-again s h =
      let s1 = record s { world = (ctx_err s.world).1 } in
      elim (Option-cases (ctx_err s.world).0) [
        | inl z ↦ at_node-again s.instance_.current_node_id s1 (rw (z, session_round) at h)
        | inr (e, z) ↦ absurd (cc (rw (z, session_round) at h))
      ]
