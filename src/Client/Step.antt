-- ===== src/Client/Step.antt =====
-- `ExecuteSingleStep` of sdk/loop.go, with the helpers that it calls.
pub mod Sound
pub mod Undecided
use Prim.Native.String.{◌++◌ as join}
use manglekit.Common.{
  ℕ, zero, suc, ◌+◌, String, Bool, true, false, not, ◌&&◌, ◌||◌, ◌==◌, Option, none, some, List, [],
  ◌∷◌, ◌++◌, Map, lookup, insert, leb, if◌then◌else◌,
}
use manglekit.Workflow.{Value, null, str, other}
use manglekit.SessionState.{Envelope, Message, SessionState}
use manglekit.SessionState.Manager.{checkpoint, extract_facts}
use manglekit.Client.{
  Error, alignment, action_not_found, alignment_retries_exceeded, retries_exceeded, thrashing,
  halted, wrapped, Result, ok, err, MemoryMode, Params, Client, Env, default_max_retries, meta,
  is_text, decision, put_all, put_texts,
}
use manglekit.Client.Similar.{thrashes}
use manglekit.Client.Context.{
  new_envelope, put_missing, World, safely_stringify, get_meta, inject_context,
}

-- `errors.As` for an alignment error: the error itself, or what it wraps.
unfoldable pub find_alignment : Error → Option String
find_alignment (alignment message) = some message
find_alignment (alignment_retries_exceeded e) = find_alignment e
find_alignment (wrapped text e) = find_alignment e
find_alignment _ = none

module _ (env : Env) (c : Client) where
  open env use {
    provider, unicode, context_facts, new_id, execute, evaluate_steering, check_requirement, recall,
    memorize, append_history, wait, marshal, print, print_text,
  }

  -- What a step returns, and what it leaves in the parameters.
  abbrev pub StepResult : Type 0
  StepResult = Result Envelope × Params × World env c

  retry_after : Params → Option Error → Envelope → World env c → StepResult
  retry_after p none e w = (ok e, p, w)
  retry_after p (some x) e w = (err x, p, w)

  -- With the message of the alignment error that `errors.As` finds, if it finds one.
  unfoldable pub handle_alignment :
      Option String → Error → Value → Params → World env c → StepResult
  handle_alignment none e payload p w = (err e, p, w)
  handle_alignment (some message) e payload p w =
      let p1 = record p { retry_count = p.retry_count + 1; last_feedback = message } in
      let (stopped, w1) = wait (p.retry_count + 1) w in
      let (id, w2) = new_id w1 in
      let res = record (new_envelope id payload) {
        metadata = insert "manglekit.decision" (str "RETRY") [];
      } in
      if leb default_max_retries p.retry_count
      then (err (alignment_retries_exceeded e), p, w)
      else elim stopped [ some x ↦ (err x, p1, w1) | none ↦ (ok res, p1, w2) ]

  unfoldable pub handle_execution_error : Error → Value → Params → World env c → StepResult
  handle_execution_error e payload p w = handle_alignment (find_alignment e) e payload p w

  -- `asyncMemorize`
  unfoldable pub async_memorize : Value → Value → World env c → World env c
  async_memorize input output w =
      if not c.has_memory || c.shutting_down
      then w
      else memorize (safely_stringify env c input) (safely_stringify env c output) w

  unfoldable pub update_history : Value → Envelope → Params → World env c → Params × World env c
  update_history payload result p w =
      let exchange =
        record { role = "user"; content = safely_stringify env c payload }
        ∷ record { role = "assistant"; content = safely_stringify env c result.payload }
        ∷ [] in
      let p1 = record p { current_history = p.current_history ++ exchange } in
      elim p.memory_mode [
        | MemoryMode.off ↦ (p, w)
        | MemoryMode.transient ↦ (p1, w)
        | MemoryMode.persist ↦
            if p.session_id == ""
            then (p1, w)
            else (p1, append_history p.session_id p1.current_history w)
      ]

  unfoldable pub handle_retry_decision : String → Envelope → Params → World env c → StepResult
  unfolding retry_after
  handle_retry_decision name result p w =
      let hint = get_meta env c "manglekit.feedback" result in
      let p1 = record p {
        retry_count = p.retry_count + 1;
        last_feedback = hint;
        feedback_history = p.feedback_history ++ (hint ∷ []);
      } in
      let (stopped, w1) = wait (p.retry_count + 1) w in
      if leb default_max_retries p.retry_count
      then (err (retries_exceeded name), p, w)
      else if thrashes unicode p.feedback_history hint
      then (err (thrashing hint), p, w)
      else retry_after p1 stopped result w1

  -- `"%s"`: `nil` prints as `%!s(<nil>)`.
  abbrev show_reason : Value → String
  show_reason null = "%!s(<nil>)"
  show_reason (str s) = s
  show_reason (other n) = print_text n

  -- The reason, out of the two values that the metadata may have for it.
  abbrev pub halt_reason : Value → Value → String
  halt_reason reason violation =
      let reason1 = if is_text "" reason then violation else reason in
      let reason2 = if is_text "" reason1 then str "blueprint violation" else reason1 in
      show_reason reason2

  unfoldable pub build_halt_error : Envelope → Error
  build_halt_error r = halted (
      join "action halted by blueprint: "
        (halt_reason (meta "reason" r.metadata) (meta "violation_msg" r.metadata)))

  unfoldable pub handle_decision : String → Envelope → Value → Params → World env c → StepResult
  handle_decision name result payload p w =
      let d = decision result in
      let w1 =
        if is_text "" d || is_text "PROCEED" d
        then async_memorize payload result.payload w
        else w in
      if is_text "RETRY" d
      then handle_retry_decision name result p w1
      else if is_text "ROUTE" d
      then (ok result, record p { retry_count = 0; feedback_history = [] }, w1)
      else if is_text "PROCEED" d || is_text "" d
      then (ok result, p, w1)
      else if is_text "HALT" d
      then (err (build_halt_error result), p, w1)
      else (ok result, p, w1)

  -- The post-execution steering, whose answer counts where the result has no decision.
  unfoldable pub steer : Envelope → World env c → Envelope × World env c
  steer result w =
      let undecided : Bool = elim (lookup "manglekit.decision" result.metadata) [
        | none ↦ true
        | some v ↦ is_text "" v
      ] in
      let (r, w1) = evaluate_steering result w in
      if not (c.steering_enabled && undecided) then (result, w) else elim r [
        | err x ↦ (result, w1)
        | ok (d, m) ↦ if d == "" then (result, w1) else (
          record result {
            metadata = put_texts m (insert "manglekit.decision" (str d) result.metadata);
          },
          w1,
        )
      ]

  abbrev pub snapshot_state : Envelope → Params → SessionState
  snapshot_state result p = record {
    session_id = p.session_id;
    active_envelope = result;
    execution_ctx = record {
      retry_count = p.retry_count;
      feedback_history = p.feedback_history;
      current_history = p.current_history;
    };
    logical_facts = extract_facts provider result;
    payload_type = "";
    audit_records = p.audit_records;
  }

  unfoldable pub save_state : Envelope → Params → World env c → World env c
  save_state result p w =
      let d = decision result in
      if c.has_state_manager && not (p.session_id == "") && (is_text "" d || is_text "PROCEED" d)
      then (checkpoint provider (snapshot_state result p) w).1
      else w

  -- The step once the action has returned.
  unfoldable pub after_execute :
      String → Value → Result Envelope → Params → World env c → StepResult
  after_execute name payload (err e) p w = handle_execution_error e payload p w
  after_execute name payload (ok result) p w =
      let (r, w1) = steer result w in
      let (p1, w2) = update_history payload r (record p { last_feedback = "" }) w1 in
      handle_decision name r payload p1 (save_state r p1 w2)

  unfoldable pub execute_single_step : String → Value → Params → World env c → StepResult
  execute_single_step name payload p w = elim (lookup name c.registry) [
    | none ↦ (err (action_not_found name), p, w)
    | some content_type ↦
        let (id, w1) = new_id w in
        let e = record (new_envelope id payload) {
          content_type = content_type;
          facts = p.fwd_facts;
          security_labels = p.fwd_labels;
          metadata = put_missing p.fwd_meta [];
        } in
        let (e1, w2) = inject_context env c e payload p w1 in
        let (r, w3) = execute name e1 w2 in after_execute name payload r p w3
  ]
