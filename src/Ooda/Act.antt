-- ===== src/Ooda/Act.antt =====
-- `Act`, `executeAction` and `executeWithDispatcher` of x/ooda/frame.go, and the retries of
-- `actWithRetry`.
use Prim.Native.String.{◌++◌ as join}
use manglekit.Common.{
  ℕ, ℤ, pos, negsuc, zero, suc, ◌+◌, String, Bool, true, false, not, ◌==◌, ◌&&◌, Option, none, some,
  [], ◌∷◌, ◌++◌, if◌then◌else◌,
}
use manglekit.Ooda.{acting, Action, Decision, Frame, Parts}
use manglekit.Ooda.Phases.{is_null}
use manglekit.SessionState.{AuditTrail, RuleInference}
use manglekit.Workflow.{Value, null, Err, ok, err}

-- `nil_action` is the panic of reading the name of an action that is nil.
pub data Fault : Type 0 where
  other_error : Err → Fault
  no_dispatcher : String → Fault
  nil_action : Fault

abbrev pub violation_rule : String → RuleInference
violation_rule name = record {
  rule_name = "SOVEREIGN_VIOLATION";
  tier = "Unknown";
  definition = join "Unknown action: " name;
  source_file = "";
  bindings = [];
  predicate = "dispatch";
}

abbrev pub with_rule : RuleInference → AuditTrail → AuditTrail
with_rule r t = record t { matched_rules = t.matched_rules ++ (r ∷ []) }

-- A decision without a trail stays as it is.
unfoldable pub with_violation : String → Decision → Decision
with_violation name d = elim d.audit_trail [
  | none ↦ d
  | some t ↦ record d { audit_trail = some (with_rule (violation_rule name) t) }
]

pub data Done : Type 0 where
  result : Value → Done
  fault : Fault → Done

-- An attempt that is the last, or one that failed, and after which another may follow.
pub data Attempt (Weight World : Type 0) : Type 0 where
  ended : Option Fault → Frame Weight → World → Attempt Weight World
  failed : Fault → Frame Weight → World → Attempt Weight World

abbrev pub is_panic : Fault → Bool
is_panic nil_action = true
is_panic _ = false

module _ (P : Parts) where
  open P use {World, Weight}

  unfoldable pub execute_with_dispatcher :
      Frame Weight → Decision → Action → World → Done × Frame Weight × World
  execute_with_dispatcher f d a w =
      let (r, w') = P.dispatch a.name a.arguments w in
      elim r [
        | ok v ↦ (result v, f, w')
        | err e ↦
            (fault (other_error e), record f { decision = some (with_violation a.name d) }, w')
      ]

  -- Without a dispatcher, or without an action.
  unfoldable pub execute_otherwise : Frame Weight → Decision → World → Done × Frame Weight × World
  execute_otherwise f d w =
      let (r, w') = P.execute f d w in
      if P.has_executor
      then elim r [ ok v ↦ (result v, f, w') | err e ↦ (fault (other_error e), f, w') ]
      else elim d.action [
        | none ↦ (result null, f, w)
        | some a ↦ (fault (no_dispatcher a.name), f, w)
      ]

  unfoldable pub execute_action : Frame Weight → Decision → World → Done × Frame Weight × World
  execute_action f d w = elim d.action [
    | none ↦ execute_otherwise f d w
    | some a ↦ if P.has_dispatcher then execute_with_dispatcher f d a w else execute_otherwise f d w
  ]

  -- The result is kept for the session, if it has one.
  unfoldable pub note_result : Frame Weight → Decision → Value → World → Option Fault × World
  note_result f d v w =
      if (P.has_transient && not (f.session_id == "")) && not (is_null v)
      then elim d.action [
        | none ↦ (some nil_action, w)
        | some a ↦ (
          none,
          P.put (if a.session_id == "" then f.session_id else a.session_id)
              (join "action_result_" a.name)
              (record {
                subject = "action";
                predicate = a.name;
                object = P.print v;
                graph = "session";
              })
              w,
        )
      ]
      else (none, w)

  unfoldable pub act : Frame Weight → World → Option Fault × Frame Weight × World
  act f w =
      let g = record f { phase = acting } in
      elim g.decision [
        | none ↦ (none, g, w)
        | some d ↦
            let (done, g1, w1) = execute_action g d w in
            elim done [
              | fault e ↦ (some e, g1, w1)
              | result v ↦
                  let g2 = record g1 { action_result = v } in
                  let (noted, w2) = note_result g2 d v w1 in (noted, g2, w2)
            ]
      ]

  unfoldable pub undo : Frame Weight → World → World
  undo f w =
      if P.has_executor && not (is_null f.action_result) then P.rollback f f.action_result w else w

  -- The wait before the attempt.
  unfoldable pub pause : ℕ → World → Option Err × World
  pause zero w = (none, w)
  pause (suc n) w = P.wait (suc n) w

  unfoldable pub after_act : Option Fault × Frame Weight × World → Attempt Weight World
  after_act (none, g, w) = ended none g w
  after_act (some e, g, w) = if is_panic e then ended (some e) g w else failed e g (undo g w)

  unfoldable pub attempt_once : ℕ → Frame Weight → World → Attempt Weight World
  attempt_once n f w =
      let g = record f { retry_count = n } in
      let (stopped, w1) = pause n w in
      elim stopped [ some e ↦ ended (some (other_error e)) g w1 | none ↦ after_act (act g w1) ]

  -- The attempts from number `n` on, with `left` more allowed after it.
  unfoldable pub attempts_from : ℕ → ℕ → Frame Weight → World → Option Fault × Frame Weight × World
  attempts_from zero n f w = elim (attempt_once n f w) [
    | ended r g w' ↦ (r, g, w')
    | failed e g w' ↦ (some e, g, w')
  ]
  attempts_from (suc left) n f w = elim (attempt_once n f w) [
    | ended r g w' ↦ (r, g, w')
    | failed e g w' ↦ attempts_from left (n + 1) g w'
  ]

  -- The loop up to the last attempt's number; below 0 there is no attempt.
  unfoldable pub attempts_up_to : ℤ → Frame Weight → World → Option Fault × Frame Weight × World
  attempts_up_to (pos n) f w = attempts_from n 0 f w
  attempts_up_to (negsuc n) f w = (none, f, w)

  unfoldable pub act_with_retry : Frame Weight → World → Option Fault × Frame Weight × World
  act_with_retry f w = attempts_up_to f.max_retries f w
