-- ===== src/Policy/Tests.antt =====
-- A runtime that answers from a table: what it has for the text of a query.
use manglekit.Common.{
  ◌≡◌, refl, String, true, false, ◌==◌, Option, none, some, List, [], ◌∷◌, Map, lookup, insert,
  length, ltb, if◌then◌else◌, arith, ◌↔◌, ◌⊎◌, eq_iff, Bool-cases, inl, inr,
}
use manglekit.Escape.{escape_string, escape_char}
use manglekit.Explain.{Atom}
use manglekit.Policy.{Engine, AlignmentError}
use manglekit.Policy.Facts.{
  parse_all, to_mangle_facts, labels_to_facts, append_facts, append_envelope_facts, metadata_facts,
  meta_facts, parse_cached_atom,
}
use manglekit.Policy.Gate.{
  Match, best_of, better, tier_priority, matches_with_tier, matches_without_tier, gate_facts,
  check_deny, check_halt2, check_halt3, evaluate_gate_with_trail, assess_internal,
}
use manglekit.Policy.Steering.{retry, decide, find_matches, steer_by}
use manglekit.Policy.Plan.{decision_of, assess_plan, config_of, get_action_config, go_on, halt}
use manglekit.Policy.Passed.{IsQuiet}
use manglekit.Policy.Cached.{IsCache, evaluate_gate_with_trail-IsCache}
use manglekit.Policy.Assessed.{assess_plan-proceeds}
use manglekit.SessionState.{Envelope}
use manglekit.Workflow.{str}

abbrev answers : Map (List (Map String)) → String → List (Map String)
answers w q = elim (lookup q w) [ none ↦ [] | some a ↦ a ]

abbrev parsed : String → Option (Atom String)
parsed s =
    if s == ""
    then none
    else some (record { predicate = record { symbol = s; arity = 0 }; args = [] })

abbrev table : Engine
table = record {
  World = Map (List (Map String));
  Constant = String;
  text = λ s. s;
  number = λ s. none;
  parse_atom = parsed;
  is_ready = λ w. true;
  query_with_solutions = λ facts q w. ((answers w q, false), w);
  execute_query = λ facts q w. (some (ltb 0 (length (answers w q))), w);
  flatten = λ entity v. some [];
  to_facts = λ entity v. some (entity ∷ []);
  print = λ v. "1";
  elements = λ v. none;
}

abbrev request : Envelope
request = record {
  id = "e";
  payload = str "pay";
  metadata = ("retry_count", str "1") ∷ [];
  error = none;
  security_labels = "pii" ∷ [];
  facts = "seen" ∷ [];
  content_type = "";
  context_facts = [];
  violations = [];
}

abbrev solution : String → String → String → Map String
solution name reason tier = (name, reason) ∷ ("Tier", tier) ∷ []

-- Two halts of the second tier and one of the first.
abbrev strict : Map (List (Map String))
strict =
    (
      "halt(\"Req\", Reason, Tier)",
      solution "Reason" "late" "T2"
          ∷ solution "Reason" "unsafe" "T1"
          ∷ solution "Reason" "unsafe too" "T1"
          ∷ [],
    )
    ∷ []

abbrev seen : Atom String
seen = record { predicate = record { symbol = "seen"; arity = 0 }; args = [] }

abbrev warm : Map (Atom String)
warm = ("seen", seen) ∷ []

abbrev denied : AlignmentError
denied = record {
  message = "unsafe";
  rule_id = "";
  action_name = "act";
  matched_rule = "halt(\"Req\", \"unsafe\", \"T1\")";
  tier = "T1";
}

abbrev unsafe : List Match
unsafe = matches_with_tier "Reason" (answers strict "halt(\"Req\", Reason, Tier)")

warm-IsCache : IsCache table warm
unfolding lookup
warm-IsCache = record {
  parsed = λ f a e. elim (Bool-cases ("seen" == f)) [
    | inl z ↦ let same : "seen" ≡ f = (eq_iff "seen" f).0 z in rw (← same) (rw z at e)
    | inr z ↦ absurd (cc (rw z at e))
  ];
  bounded = omega arith;
}

lets_through : (assess_plan table (λ v. "error") request ([], [])).0.0.outcome ≡ go_on
unfolding assess_plan assess_internal decision_of evaluate_gate_with_trail gate_facts
    to_mangle_facts parse_all labels_to_facts escape_string escape_char append_envelope_facts
    append_facts parse_cached_atom check_halt3 check_halt2 check_deny matches_with_tier
    matches_without_tier lookup metadata_facts meta_facts
lets_through = refl

evaluate_gate_with_trail-IsCache_example :
    let (v, (c, w)) = evaluate_gate_with_trail table "act" "Req" request [] (warm, strict) in
    let (v0, (_, w0)) = evaluate_gate_with_trail table "act" "Req" request [] ([], strict) in
    (v ≡ v0) × (w ≡ w0) × IsCache table c
evaluate_gate_with_trail-IsCache_example =
    evaluate_gate_with_trail-IsCache table "act" "Req" request [] warm strict warm-IsCache

assess_plan-proceeds_example :
    let (d, _) = (assess_plan table (λ v. "error") request ([], [])).0 in
    ((d.outcome ≡ go_on) ↔ (
      (table.is_ready [] ≡ true)
      × ((facts : List (Atom String)) × ((gate_facts table "Req" request [] []).0 ≡ some facts)
          × IsQuiet table "Req" facts [])))
    × ((d.outcome ≡ halt) ⊎ (d.outcome ≡ go_on))
assess_plan-proceeds_example = assess_plan-proceeds table (λ v. "error") request [] []

-- Two retries and a route: the retry of the better tier wins.
abbrev advice : Map (List (Map String))
advice =
    (
      "retry(\"Req\", Hint, Tier)",
      solution "Hint" "again" "T3" ∷ solution "Hint" "slower" "T1" ∷ [],
    )
    ∷ ("route(\"Req\", Target, Tier)", solution "Target" "review" "T0" ∷ [])
    ∷ []

retries : (steer_by table [] advice).0 ≡ retry "slower"
unfolding steer_by find_matches matches_with_tier lookup decide best_of better tier_priority
retries = refl

-- The later of two values of a key stands.
abbrev settings : Map (List (Map String))
settings =
    (
      "config(Key, Value)",
      (("Key", "depth") ∷ ("Value", "3") ∷ [])
          ∷ (("Key", "mode") ∷ ("Value", "fast") ∷ [])
          ∷ (("Key", "depth") ∷ ("Value", "5") ∷ [])
          ∷ [],
    )
    ∷ []

later_stands :
    (get_action_config table request ([], settings)).0 ≡ ("depth", "5") ∷ ("mode", "fast") ∷ []
unfolding get_action_config to_mangle_facts parse_all append_envelope_facts append_facts
    parse_cached_atom metadata_facts meta_facts config_of lookup insert
later_stands = refl
