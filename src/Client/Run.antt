-- ===== src/Client/Run.antt =====
-- `ExecuteByName` and `runLoopInternal` of sdk/loop.go. Where the mode is to persist, the client
-- has a memory.
pub mod Bounded
use manglekit.Common.{
  ℕ, zero, suc, ◌+◌, String, Bool, not, ◌&&◌, ◌==◌, Option, none, some, List, [], ◌∷◌, ◌++◌, ltb,
  lookup, Map, if◌then◌else◌,
}
use manglekit.Workflow.{Value, null, str, other}
use manglekit.SessionState.{
  Envelope, AuditRecord, AuditTrail, SessionState, new_audit_record_from_trail, plain_record,
}
use manglekit.SessionState.Manager.{Returned, value, failure, hydrate}
use manglekit.Client.{
  Error, missing_next_step, max_steps_exceeded, Result, ok, err, MemoryMode, Params, Client, Env,
  default_max_steps, meta, is_text, decision,
}
use manglekit.Client.Step.{StepResult, execute_single_step}
use manglekit.Client.Context.{World}

-- What `ExecuteByName` is given: an envelope or any other value.
pub data Input : Type 0 where
  plain : Value → Input
  envelope : Envelope → Input

abbrev pub input_payload : Input → Value
input_payload (plain v) = v
input_payload (envelope e) = e.payload

-- The facts, labels and metadata of an envelope are forwarded.
abbrev pub forward : Input → Params → Params
forward (plain v) p = p
forward (envelope e) p = record p {
  fwd_facts = p.fwd_facts ++ e.facts;
  fwd_labels = p.fwd_labels ++ e.security_labels;
  fwd_meta = elim e.metadata [ [] ↦ p.fwd_meta | m ∷ ms ↦ m ∷ ms ];
}

module _ (env : Env) (c : Client) where
  open env use {provider, ctx_err, read_history, audit_trail}

  abbrev outcome_of : Envelope → String
  outcome_of r = elim (decision r) [
    | null ↦ "PROCEED"
    | str s ↦ if s == "" then "PROCEED" else s
    | other n ↦ "PROCEED"
  ]

  abbrev trail_of : Envelope → Option AuditTrail
  trail_of r = elim (meta "manglekit.audit_trail" r.metadata) [ other n ↦ audit_trail n | _ ↦ none ]

  -- The record of a step.
  unfoldable pub audit_record : ℕ → Envelope → AuditRecord
  audit_record step r = elim (trail_of r) [
    | some t ↦ new_audit_record_from_trail (some t) step (outcome_of r)
    | none ↦ plain_record step (outcome_of r)
  ]

  -- The text under the key of the next step, where there is one.
  unfoldable pub next_step : Envelope → Option String
  next_step r = elim (meta "manglekit.next_step" r.metadata) [
    | str s ↦ if s == "" then none else some s
    | _ ↦ none
  ]

  -- The loop from step number `step` on, with `left` steps more allowed.
  unfoldable pub run_steps : ℕ → ℕ → String → Value → Params → World env c → StepResult env c
  run_steps zero step action payload p w = (err max_steps_exceeded, p, w)
  run_steps (suc left) step action payload p w =
      let (done, w1) = ctx_err w in
      let (r, p1, w2) = execute_single_step env c action payload p w1 in
      elim done [
        | some e ↦ (err e, p, w1)
        | none ↦ elim r [
          | err e ↦ (err e, p1, w2)
          | ok result ↦
              let p2 = record p1 {
                audit_records = p1.audit_records ++ (audit_record step result ∷ []);
              } in
              let again = run_steps left (step + 1) action payload p2 w2 in
              if is_text "ROUTE" (decision result)
              then elim (next_step result) [
                | none ↦ (err missing_next_step, p2, w2)
                | some next ↦ run_steps left (step + 1) next result.payload p2 w2
              ]
              else if is_text "RETRY" (decision result)
              then again
              else (ok result, p2, w2)
        ]
      ]

  unfoldable pub load_history : Params → World env c → Params × World env c
  load_history p w = elim p.memory_mode [
    | MemoryMode.persist ↦
        if p.session_id == ""
        then (p, w)
        else let (h, w1) = read_history p.session_id w in (record p { current_history = h }, w1)
    | _ ↦ (p, w)
  ]

  -- The parameters and the payload that a loaded state puts in place of the given ones.
  abbrev pub restore : Returned (Option SessionState) → Value → Params → Value × Params
  restore (value (some s)) payload p = (
    s.active_envelope.payload,
    record p {
      current_history = s.execution_ctx.current_history;
      feedback_history = s.execution_ctx.feedback_history;
      retry_count = s.execution_ctx.retry_count;
    },
  )
  restore _ payload p = (payload, p)

  unfoldable pub load_state : Value → Params → World env c → (Value × Params) × World env c
  load_state payload p w =
      let (r, w1) = hydrate provider p.session_id w in
      if c.has_state_manager && not (p.session_id == "")
      then (restore r payload p, w1)
      else ((payload, p), w)

  -- The first of three numbers of steps that is set: the call's, the client's, the default.
  unfoldable pub step_limit : Params → ℕ
  step_limit p =
      if ltb 0 p.max_steps
      then p.max_steps
      else if ltb 0 c.max_steps
      then c.max_steps
      else default_max_steps

  unfoldable pub run_loop_internal : String → Value → Params → World env c → StepResult env c
  run_loop_internal action payload p w =
      let (p1, w1) = load_history p w in
      let ((payload2, p2), w2) = load_state payload p1 w1 in
      run_steps (step_limit p2) 0 action payload2 p2 w2

  unfoldable pub execute_by_name : String → Input → Params → World env c → StepResult env c
  execute_by_name action input p w =
      run_loop_internal action (input_payload input) (forward input p) w
