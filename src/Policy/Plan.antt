-- ===== src/Policy/Plan.antt =====
-- `AssessPlan`, `GetActionConfig`, `CheckRequirement` and `Query` over the gate and the runtime.
use Prim.Native.String.{◌++◌ as join}
use manglekit.Common.{
  String, Bool, true, false, not, Option, none, some, List, [], ◌∷◌, Map, lookup, insert,
  if◌then◌else◌,
}
use manglekit.Policy.{Engine}
use manglekit.Policy.Facts.{parse_all, to_mangle_facts, append_envelope_facts}
use manglekit.Policy.Gate.{
  Verdict, passed, not_ready, input_error, query_error, halted, State, assess_internal,
}
use manglekit.SessionState.{Envelope, AuditTrail}

-- Decision, as far as the engine writes it
pub record Decision : Type 0 where
  pub outcome : String
  pub reasons : List String
  pub meta : Map String
  pub audit_trail : Option AuditTrail

abbrev pub halt : String
halt = "HALT"

abbrev pub go_on : String
go_on = "PROCEED"

-- The decision of a verdict, and whether an error comes with it.
unfoldable pub decision_of : (Verdict → String) → Verdict → Decision × Bool
decision_of print passed =
    (record { outcome = go_on; reasons = []; meta = []; audit_trail = none }, false)
decision_of print (not_ready e) = (
  record {
    outcome = halt;
    reasons = e.message ∷ [];
    meta = ("rule_id", e.rule_id) ∷ [];
    audit_trail = none;
  },
  false,
)
decision_of print (halted trail e) = (
  record {
    outcome = halt;
    reasons = e.message ∷ [];
    meta = ("rule_id", e.rule_id) ∷ [];
    audit_trail = trail;
  },
  false,
)
decision_of print input_error = (
  record { outcome = halt; reasons = print input_error ∷ []; meta = []; audit_trail = none },
  true,
)
decision_of print query_error = (
  record { outcome = halt; reasons = print query_error ∷ []; meta = []; audit_trail = none },
  true,
)

-- The strings of the solutions that bind both `Key` and `Value`, a later one in place of an earlier.
unfoldable pub config_of : List (Map String) → Map String → Map String
config_of [] m = m
config_of (s ∷ ss) m = elim (lookup "Key" s) [
  | none ↦ config_of ss m
  | some k ↦ elim (lookup "Value" s) [
    | none ↦ config_of ss m
    | some v ↦ config_of ss (insert k v m)
  ]
]

module _ (E : Engine) where
  open E use {World, Constant}

  -- `print` is the text of an error.
  unfoldable pub assess_plan : (Verdict → String) → Envelope → State E → (Decision × Bool) × State E
  assess_plan print env s = let (v, s') = assess_internal E "" env s in (decision_of print v, s')

  -- The facts of the envelope that do not parse are left out, with what stands after them.
  unfoldable pub get_action_config : Envelope → State E → Map String × State E
  get_action_config env (cache, w) =
      if not (E.is_ready w)
      then ([], (cache, w))
      else elim (to_mangle_facts E "Req" env.payload env.content_type) [
        | none ↦ ([], (cache, w))
        | some facts ↦
            let (_, all, cache') = append_envelope_facts E facts env cache in
            let ((sols, _), w') = E.query_with_solutions all "config(Key, Value)" w in
            (config_of sols [], (cache', w'))
      ]

  -- none is an error
  unfoldable pub check_requirement : Envelope → String → World → Option Bool × World
  check_requirement env req_name w = elim (to_mangle_facts E "Req" env.payload env.content_type) [
    | none ↦ (none, w)
    | some facts ↦ E.execute_query facts (join "requires(\"Req\", \"" (join req_name "\")")) w
  ]

  -- No solutions after an error.
  unfoldable pub query : List String → String → World → Option (List (Map String)) × World
  query facts text w = elim (parse_all E facts) [
    | none ↦ (none, w)
    | some atoms ↦
        let ((sols, broken), w') = E.query_with_solutions atoms text w in
        (if broken then none else some sols, w')
  ]
