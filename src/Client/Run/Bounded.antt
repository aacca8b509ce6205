-- ===== src/Client/Run/Bounded.antt =====
-- What a run leaves.
use manglekit.Common.{
  ℕ, zero, suc, ◌+◌, ◌≤◌, ◌≡◌, refl, inl, inr, ap, String, false, Bool-cases, ◌==◌, Option, none,
  some, Option-cases, List, [], ◌∷◌, ◌++◌, arith, length, length-append, not, ◌&&◌, ◌⊎◌, ◌∙◌,
}
use manglekit.Workflow.{Value}
use manglekit.SessionState.{Envelope, SessionState, AuditRecord}
use manglekit.SessionState.Manager.{Returned, value, failure, hydrate}
use manglekit.Client.{Error, Result, ok, err, MemoryMode, Params, Client, Env, is_text, decision}
use manglekit.Client.Step.{StepResult, execute_single_step}
use manglekit.Client.Context.{World}
use manglekit.Client.Step.Sound.{IsWithin, InBounds, Decided, execute_single_step-Leaves}
use manglekit.Client.Run.{
  Input, plain, envelope, forward, audit_record, next_step, run_steps, load_history, restore,
  load_state, step_limit, run_loop_internal, execute_by_name, input_payload,
}

Result-cases : {A : Type 0} (r : Result A) → ((a : A) × (r ≡ ok a)) ⊎ ((e : Error) × (r ≡ err e))
Result-cases (ok a) = inl (a, refl)
Result-cases (err e) = inr (e, refl)

MemoryMode-cases :
    (m : MemoryMode)
    → (m ≡ MemoryMode.persist) ⊎ ((m ≡ MemoryMode.off) ⊎ (m ≡ MemoryMode.transient))
MemoryMode-cases MemoryMode.persist = inl refl
MemoryMode-cases MemoryMode.off = inr (inl refl)
MemoryMode-cases MemoryMode.transient = inr (inr refl)

-- The decision of a result that is handed to the caller.
abbrev pub IsFinal : Result Envelope → Type 0
IsFinal (err e) = Unit
IsFinal (ok r) =
    (is_text "HALT" (decision r) ≡ false)
    × (is_text "RETRY" (decision r) ≡ false)
    × (is_text "ROUTE" (decision r) ≡ false)

module _ (env : Env) (c : Client) where
  open env use {provider, unicode, ctx_err}

  abbrev pub IsBounded : ℕ → Params → StepResult env c → Type 0
  IsBounded left p out =
      InBounds unicode out.1
      × IsFinal out.0
      × (length out.1.audit_records ≤ length p.audit_records + left)

  IsBounded-more :
      (left : ℕ) (p p' : Params) (out : StepResult env c)
      → length p'.audit_records ≡ length p.audit_records + 1
      → IsBounded left p' out
      → IsBounded (suc left) p out
  IsBounded-more left p p' out e (b, f, le) = (b, f, omega arith)

  run_steps-IsBounded :
      (left step : ℕ) (action : String) (payload : Value) (p : Params) (w : World env c)
      → InBounds unicode p
      → IsBounded left p (run_steps env c left step action payload p w)
  unfolding run_steps
  run_steps-IsBounded zero step action payload p w b = (b, tt, omega arith)
  run_steps-IsBounded (suc left) step action payload p w b =
      let (done, w1) = ctx_err w in
      let out = execute_single_step env c action payload p w1 in
      let leaves = execute_single_step-Leaves env c action payload p w1 b in
      elim (Option-cases done) [
        | inr (e, z) ↦ rw (z, run_steps) (b, tt, omega arith)
        | inl z ↦ elim (Result-cases out.0) [
          | inr (e, y) ↦
              rw (z, y, run_steps)
                (leaves.0, tt, omega (arith, ap (λ (l : List AuditRecord). length l) leaves.2))
          | inl (r, y) ↦
              let records = out.1.audit_records ++ (audit_record env c step r ∷ []) in
              let p2 = record (out.1) { audit_records = records } in
              let d : Decided p r out.1 = rw y at (leaves.1) in
              let counted : length records ≡ length p.audit_records + 1 = omega (
                arith,
                length-append out.1.audit_records (audit_record env c step r ∷ []),
                ap (λ (l : List AuditRecord). length l) leaves.2,
              ) in
              let go_on = λ (a : String) (v : Value).
                IsBounded-more left p p2 (run_steps env c left (step + 1) a v p2 out.2) counted
                  (run_steps-IsBounded left (step + 1) a v p2 out.2 leaves.0) in
              elim (Bool-cases (is_text "ROUTE" (decision r))) [
                | inl x ↦ elim (Option-cases (next_step env c r)) [
                  | inl q ↦ rw (z, y, x, q, run_steps) (leaves.0, tt, omega arith)
                  | inr (next, q) ↦ rw (z, y, x, q, run_steps) (go_on next r.payload)
                ]
                | inr x ↦ elim (Bool-cases (is_text "RETRY" (decision r))) [
                  | inl q ↦ rw (z, y, x, q, run_steps) (go_on action payload)
                  | inr q ↦ rw (z, y, x, q, run_steps) (leaves.0, (d.0, q, x), omega arith)
                ]
              ]
        ]
      ]

  -- What comes before the loop keeps within the limits, and leaves the records and the steps.
  abbrev Prepares : Params → Params → Type 0
  Prepares p p' =
      InBounds unicode p' × (p'.audit_records ≡ p.audit_records) × (p'.max_steps ≡ p.max_steps)

  forward-Prepares :
      (input : Input) (p : Params) → InBounds unicode p → Prepares p (forward input p)
  forward-Prepares (plain v) p b = (b, refl, refl)
  forward-Prepares (envelope e) p b = (b, refl, refl)

  load_history-Prepares :
      (p : Params) (w : World env c) → InBounds unicode p → Prepares p (load_history env c p w).0
  unfolding load_history
  load_history-Prepares p w b = elim (MemoryMode-cases p.memory_mode) [
    | inr z ↦ elim z [
      | inl y ↦ rw (y, load_history) (b, refl, refl)
      | inr y ↦ rw (y, load_history) (b, refl, refl)
    ]
    | inl z ↦ elim (Bool-cases (p.session_id == "")) [
      | inl y ↦ rw (z, y, load_history) (b, refl, refl)
      | inr y ↦ rw (z, y, load_history) (b, refl, refl)
    ]
  ]

  restore-Prepares :
      (r : Returned (Option SessionState)) (v : Value) (p : Params)
      → ((s : SessionState)
          → r ≡ value (some s)
          → IsWithin unicode s.execution_ctx.retry_count s.execution_ctx.feedback_history)
      → InBounds unicode p
      → Prepares p (restore env c r v p).1
  restore-Prepares (value (some s)) v p h b = (h s refl, refl, refl)
  restore-Prepares (value none) v p h b = (b, refl, refl)
  restore-Prepares (failure e) v p h b = (b, refl, refl)

  load_state-Prepares :
      (loads : (id : String) (w : World env c) (s : SessionState)
        → (hydrate provider id w).0 ≡ value (some s)
        → IsWithin unicode s.execution_ctx.retry_count s.execution_ctx.feedback_history)
      (v : Value) (p : Params) (w : World env c)
      → InBounds unicode p
      → Prepares p (load_state env c v p w).0.1
  unfolding load_state
  load_state-Prepares loads v p w b =
      elim (Bool-cases (c.has_state_manager && not (p.session_id == ""))) [
        | inl z ↦
            rw (z, load_state)
              (restore-Prepares (hydrate provider p.session_id w).0 v p (loads p.session_id w) b)
        | inr z ↦ rw (z, load_state) (b, refl, refl)
      ]

  -- A run keeps to its limits, if the parameters that it is given do and if a state that the state
  -- manager loads for a session does: no more than three retries are counted, no more feedbacks are
  -- kept than retries, no two of them similar; at most as many audit records are added as steps are
  -- allowed; and a result that is returned with no error did not decide to halt, retry or route.
  pub execute_by_name-IsBounded :
      (loads : (id : String) (w : World env c) (s : SessionState)
        → (hydrate provider id w).0 ≡ value (some s)
        → IsWithin unicode s.execution_ctx.retry_count s.execution_ctx.feedback_history)
      (action : String) (input : Input) (p : Params) (w : World env c)
      → InBounds unicode p
      → IsBounded (step_limit env c p) p (execute_by_name env c action input p w)
  unfolding execute_by_name run_loop_internal step_limit
  execute_by_name-IsBounded loads action input p w b =
      let p0 = forward input p in
      let (b0, a0, m0) = forward-Prepares input p b in
      let (p1, w1) = load_history env c p0 w in
      let (b1, a1, m1) = load_history-Prepares p0 w b0 in
      let ((v2, p2), w2) = load_state env c (input_payload input) p1 w1 in
      let (b2, a2, m2) = load_state-Prepares loads (input_payload input) p1 w1 b1 in
      let out = run_steps-IsBounded (step_limit env c p2) 0 action v2 p2 w2 b2 in
      let records = ap (λ (l : List AuditRecord). length l) (a2 ∙ a1 ∙ a0) in
      let limit : step_limit env c p2 ≡ step_limit env c p = rw (m2 ∙ m1 ∙ m0) refl in
      (out.0, out.1, omega (arith, out.2, records, limit))
