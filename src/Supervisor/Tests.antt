-- ===== src/Supervisor/Tests.antt =====
-- A gate whose engine passes every plan and every output but the one that is called bad.
use manglekit.Common.{ℕ, suc, ◌<◌, ◌≡◌, ◌↔◌, refl, String, true, false, some, [], ◌∷◌, length}
use manglekit.Workflow.{Value, str, other}
use manglekit.SessionState.{Envelope, RuleInference, AuditTrail}
use manglekit.Supervisor.{
  Decision, AuditResult, blocks, violation_tier, is_blocking, map_core_tier, most_severe,
  tier_severity,
}
use manglekit.Supervisor.Tiers.{tiered, advises, violation_tier-advisory}
use manglekit.Supervisor.Gate.{
  GateError, supervisor_error, ok, err, fine, Env, bare_envelope, quads_to_atoms, flatten_to_quads,
  verify_atoms, assessed, reflected,
}
use manglekit.Supervisor.Action.{
  execute, execute_internal, post_check, supervised_payload, request_check,
}
use manglekit.Supervisor.Enforced.{IsChecked, checked, execute-IsChecked, execute_internal-refuses}

abbrev rule : String → RuleInference
rule tier = record {
  rule_name = "r";
  tier = tier;
  definition = "halt(R, M, T).";
  source_file = "";
  bindings = [];
  predicate = "halt";
}

abbrev trail : AuditTrail
trail = record {
  matched_rules = rule "T3" ∷ rule "T2" ∷ [];
  timestamp = "";
  engine_id = "";
  query = "";
  fact_count = 0;
  matched_count = 2;
  latency_ms = 0;
}

abbrev soft_halt : Decision
soft_halt = record { outcome = "HALT"; reasons = "why" ∷ []; audit_trail = some trail }

-- The world counts the calls of the action.
abbrev env : Env
env = record {
  World = ℕ;
  assess_plan = λ e w. (ok soft_halt, w);
  reflect = λ name e w. (fine, w);
  inner = λ e w. (ok (bare_envelope (str "out") []), suc w);
  extract = λ s w. (ok (other 1), w);
  fields = λ v. elim v [ other n ↦ ("amount", "5") ∷ [] | _ ↦ [] ];
  quote = λ s. s;
  print = λ n. "n";
  trail_value = λ t. other 0;
}

abbrev request : Envelope
request = bare_envelope (str "pay five") []

abbrev response : Envelope
unfolding execute execute_internal post_check verify_atoms assessed reflected violation_tier
    flatten_to_quads map_core_tier most_severe tier_severity
response = elim (execute env "pay" true request 0).0 [ ok r ↦ r | err e ↦ request ]

execute-IsChecked_example :
    let (given, w1) = supervised_payload env true (str "pay five") 0 in
    (payload : Value) × (given ≡ ok payload)
    × IsChecked env (request_check "pay" request) payload w1 response
unfolding execute execute_internal post_check verify_atoms assessed reflected violation_tier
    flatten_to_quads map_core_tier most_severe tier_severity
execute-IsChecked_example = execute-IsChecked env "pay" true request 0 response refl

execute_internal-refuses_example :
    let p = request_check "pay" request in
    let (before, w1) = checked env p "Req" (other 1) 0 in
    let out = execute_internal env (some p) (other 1) 0 in
    ((e : GateError) → before ≡ err e → out ≡ (err (supervisor_error e), w1))
    × ((res : AuditResult)
        → before ≡ ok res
        → blocks res ≡ true
        → (e : GateError) × (out ≡ (err e, w1)))
    × (1000 < length (quads_to_atoms (flatten_to_quads env "Req" (other 1)))
        → (e : GateError) × (out ≡ (err e, 0)))
execute_internal-refuses_example =
    execute_internal-refuses env (request_check "pay" request) (other 1) 0

violation_tier-advisory_example : (is_blocking (violation_tier soft_halt) ≡ false) ↔ (
    (t : AuditTrail) × (some trail ≡ some t)
    × (tiered t.matched_rules ≡ true)
    × (advises t.matched_rules ≡ true))
violation_tier-advisory_example = violation_tier-advisory soft_halt
