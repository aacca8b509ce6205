-- ===== src/Ooda/Tests.antt =====
-- An epoch whose decision halts, and whose action fails once: the world counts what was dispatched.
use manglekit.Common.{pos, ℕ, zero, suc, ◌+◌, ◌≡◌, refl, true, false, none, some, []}
use manglekit.Ooda.{observing, Decision, no_trail, Frame, Parts}
use manglekit.Ooda.Phases.{
  observe, orient, orient_knowledge, orient_session, orient_memory, decide, verify, note_status,
}
use manglekit.Ooda.Act.{
  attempts_up_to, nil_action, execute_with_dispatcher, execute_otherwise, execute_action,
  note_result, with_violation, act, after_act, attempt_once, attempts_from, pause, undo,
  act_with_retry,
}
use manglekit.Ooda.Run.{commit_frame, run}
use manglekit.Ooda.Retried.{with_rollback, act_with_retry-with_rollback}
use manglekit.Ooda.Located.{IsLocated, run-IsLocated}
use manglekit.Workflow.{null, str, external, ok, err}

abbrev halting : Decision
halting = record {
  outcome = "HALT";
  audit_trail = none;
  action = some (record { name = "pay"; arguments = []; session_id = "" });
}

abbrev parts : Parts
parts = record {
  World = ℕ;
  Weight = ℕ;
  zero_weight = 0;
  full_weight = 10;
  recall_knowledge = none;
  has_transient = true;
  to_atoms = λ s w. (ok [], w);
  put = λ s k f w. w;
  has_memory = false;
  recall = λ s w. (ok [], w);
  commit = λ f w. (none, w);
  has_brain = true;
  evaluate = λ f w. (ok (some halting), w);
  verify_frame = λ f w. (ok none, w);
  has_dispatcher = true;
  dispatch = λ a m w. (elim w [ zero ↦ err (external 1) | suc k ↦ ok (str "paid") ], suc w);
  has_executor = true;
  execute = λ f d w. (ok (str "done"), w);
  rollback = λ f v w. 100 + w;
  wait = λ n w. (none, w);
  print = λ v. "paid";
  tells_failure = λ s. false;
}

abbrev frame : Frame ℕ
frame = record {
  id = "f";
  input = "pay it";
  context = [];
  phase = observing;
  session_id = "s";
  workflow_id = "";
  decision = some halting;
  audit_trail = no_trail;
  action_result = null;
  retry_count = 0;
  max_retries = pos 2;
}

-- The action of a decision to halt is dispatched.
halt_dispatched : (run parts frame 0).1.action_result ≡ str "paid"
unfolding run observe orient orient_knowledge orient_session orient_memory decide verify note_status
    commit_frame act execute_action execute_with_dispatcher with_violation note_result after_act
    attempt_once attempts_from pause undo attempts_up_to act_with_retry
halt_dispatched = refl

-- A decision without an action, and a result to keep for the session.
no_action_panics :
    (act parts (record frame { decision = some (record halting { action = none }) }) 1).0
    ≡ some nil_action
unfolding act execute_action execute_otherwise note_result
no_action_panics = refl

act_with_retry-with_rollback_example :
    act_with_retry (with_rollback parts (λ f v w. w)) frame 0 ≡ act_with_retry parts frame 0
act_with_retry-with_rollback_example = act_with_retry-with_rollback parts (λ f v w. w) frame 0 refl

run-IsLocated_example : let (stop, g, _) = run parts frame 0 in IsLocated stop g.phase
run-IsLocated_example = run-IsLocated parts frame 0
