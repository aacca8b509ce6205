-- ===== src/Policy/Gate.antt =====
-- `evaluateGateWithTrail`: a halt with a tier, a halt without one, a halt by itself, in this order; and
-- `Assess`, `Reflect` and `AssessPlan` over it.
use Prim.Native.String.{◌++◌ as join}
use manglekit.Common.{
  ℕ, String, not, ◌==◌, Option, none, some, List, [], ◌∷◌, ◌++◌, Map, lookup, length, ltb, map,
  if◌then◌else◌,
}
use manglekit.Explain.{rigid, Atom}
use manglekit.Policy.{Engine, AlignmentError}
use manglekit.Policy.Facts.{parse_all, to_mangle_facts, append_envelope_facts, labels_to_facts}
use manglekit.SessionState.{Envelope, RuleInference, AuditTrail}

abbrev pub tier_unknown : String
tier_unknown = "Unknown"

unfoldable pub tier_priority : String → ℕ
tier_priority t =
    if t == "T0"
    then 0
    else if t == "T1"
    then 1
    else if t == "T2"
    then 2
    else if t == "T3"
    then 3
    else 4

-- A text that a rule derived, and the tier that came with it.
pub record Match : Type 0 where
  pub reason : String
  pub tier : String

unfoldable pub better : Match → Match → Match
better best m = if ltb (tier_priority m.tier) (tier_priority best.tier) then m else best

-- The loop over the matches after the first.
unfoldable pub best_of : Match → List Match → Match
best_of best [] = best
best_of best (m ∷ ms) = best_of (better best m) ms

abbrev pub tier_or_unknown : Option String → String
tier_or_unknown none = tier_unknown
tier_or_unknown (some t) = if t == "" then tier_unknown else t

-- The matches of the solutions that bind `name`, with the tiers that they bind.
unfoldable pub matches_with_tier : String → List (Map String) → List Match
matches_with_tier name [] = []
matches_with_tier name (s ∷ ss) =
    let rest = matches_with_tier name ss in
    elim (lookup name s) [
      | none ↦ rest
      | some r ↦ record { reason = r; tier = tier_or_unknown (lookup "Tier" s) } ∷ rest
    ]

unfoldable pub matches_without_tier : String → List (Map String) → List Match
matches_without_tier name [] = []
matches_without_tier name (s ∷ ss) =
    let rest = matches_without_tier name ss in
    elim (lookup name s) [
      | none ↦ rest
      | some r ↦ record { reason = r; tier = tier_unknown } ∷ rest
    ]

-- The first solution that binds `name` ends a query; the empty text if none does.
unfoldable pub first_text : String → List (Map String) → String
first_text name [] = ""
first_text name (s ∷ ss) =
    let rest = first_text name ss in elim (lookup name s) [ none ↦ rest | some t ↦ t ]

abbrev pub quoted : String → String
quoted s = join "\"" (join s "\"")

abbrev pub halt_with : String → String → String
halt_with entity more = join "halt(" (join (quoted entity) (join more ")"))

-- The text of a match, `halt("entity", "reason", "tier")`.
abbrev pub halt_text : String → Match → String
halt_text entity m =
    halt_with entity (join ", " (join (quoted m.reason) (join ", " (quoted m.tier))))

abbrev pub halt_rule : String → Match → RuleInference
halt_rule entity m = record {
  rule_name = "halt";
  tier = m.tier;
  definition = halt_text entity m;
  source_file = "unknown";
  bindings = [];
  predicate = "halt";
}

abbrev pub halt_trail : String → List Match → AuditTrail
halt_trail entity ms = record {
  matched_rules = map (halt_rule entity) ms;
  timestamp = "";
  engine_id = "manglekit-engine";
  query = halt_with entity ", ...";
  fact_count = 0;
  matched_count = length ms;
  latency_ms = 0;
}

pub data Verdict : Type 0 where
  passed : Verdict
  not_ready : AlignmentError → Verdict
  input_error : Verdict
  query_error : Verdict
  halted : Option AuditTrail → AlignmentError → Verdict

module _ (E : Engine) where
  open E use {World, Constant}

  -- The cache of parsed facts, and the world of the runtime.
  abbrev pub State : Type 0
  State = Map (Atom Constant) × World

  abbrev pub action_operation : String → Atom Constant
  action_operation name = record {
    predicate = record { symbol = "action_operation"; arity = 2 };
    args = rigid (E.text "Req") ∷ rigid (E.text name) ∷ [];
  }

  -- The facts of steps 1 to 5, and the cache.
  unfoldable pub gate_facts :
      String
      → Envelope
      → List (Atom Constant)
      → Map (Atom Constant)
      → Option (List (Atom Constant)) × Map (Atom Constant)
  gate_facts entity env extra cache = elim (to_mangle_facts E entity env.payload env.content_type) [
    | none ↦ (none, cache)
    | some facts ↦ elim (parse_all E (labels_to_facts env.security_labels)) [
      | none ↦ (none, cache)
      | some labels ↦
          let (fine, all, cache') =
            append_envelope_facts E ((facts ++ extra) ++ labels) env cache in
          (if fine then some all else none, cache')
    ]
  ]

  -- A violation that matches found, with the first rule that `violation_rule` names.
  unfoldable pub resolve :
      String → String → List (Atom Constant) → Match → List Match → World → Verdict × World
  resolve entity action facts m ms w =
      let best = best_of m ms in
      let ((rules, _), w') = E.query_with_solutions facts "violation_rule(ID)" w in
      (
        halted (some (halt_trail entity (m ∷ ms))) (record {
          message = best.reason;
          rule_id = first_text "ID" rules;
          action_name = action;
          matched_rule = halt_text entity best;
          tier = best.tier;
        }),
        w',
      )

  unfoldable pub check_deny : String → String → List (Atom Constant) → World → Verdict × World
  check_deny entity action facts w =
      let (denied, w1) = E.execute_query facts (halt_with entity "") w in
      let ((msgs, _), w2) = E.query_with_solutions facts "violation_msg(Msg)" w1 in
      let ((rules, _), w3) = E.query_with_solutions facts "violation_rule(ID)" w2 in
      elim denied [
        | none ↦ (query_error, w1)
        | some b ↦
            if b
            then (
              halted none (record {
                message = first_text "Msg" msgs;
                rule_id = first_text "ID" rules;
                action_name = action;
                matched_rule = halt_with entity "";
                tier = tier_unknown;
              }),
              w3,
            )
            else (passed, w1)
      ]

  unfoldable pub check_halt2 : String → String → List (Atom Constant) → World → Verdict × World
  check_halt2 entity action facts w =
      let ((sols, failed), w1) = E.query_with_solutions facts (halt_with entity ", Reason") w in
      if failed then (query_error, w1) else elim (matches_without_tier "Reason" sols) [
        | [] ↦ check_deny entity action facts w1
        | m ∷ ms ↦ resolve entity action facts m ms w1
      ]

  -- An error of the first query is only logged.
  unfoldable pub check_halt3 : String → String → List (Atom Constant) → World → Verdict × World
  check_halt3 entity action facts w =
      let ((sols, _), w1) = E.query_with_solutions facts (halt_with entity ", Reason, Tier") w in
      elim (matches_with_tier "Reason" sols) [
        | [] ↦ check_halt2 entity action facts w1
        | m ∷ ms ↦ resolve entity action facts m ms w1
      ]

  unfoldable pub evaluate_gate_with_trail :
      String → String → Envelope → List (Atom Constant) → State → Verdict × State
  evaluate_gate_with_trail action entity env extra (cache, w) =
      let (facts, cache') = gate_facts entity env extra cache in
      if not (E.is_ready w)
      then (
        not_ready (record {
          message = "policy engine not initialized: fail-closed";
          rule_id = "";
          action_name = action;
          matched_rule = "";
          tier = "";
        }),
        (cache, w),
      )
      else elim facts [
        | none ↦ (input_error, (cache', w))
        | some fs ↦
            ((check_halt3 entity action fs w).0, (cache', (check_halt3 entity action fs w).1))
      ]

  unfoldable pub assess_internal : String → Envelope → State → Verdict × State
  assess_internal action env s =
      evaluate_gate_with_trail action "Req" env
        (if action == "" then [] else action_operation action ∷ []) s

  unfoldable pub reflect_internal : String → Envelope → State → Option Envelope × Verdict × State
  reflect_internal action env s =
      let (v, s') = evaluate_gate_with_trail action "Output" env [] s in
      (elim v [ passed ↦ some env | _ ↦ none ], v, s')
