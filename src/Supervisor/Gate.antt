-- ===== src/Supervisor/Gate.antt =====
-- `VerifyAtoms` of the adapter in internal/supervisor/sdk_adapter.go, with what it needs.
use Prim.Native.Char.{code}
use Prim.Native.String.{◌++◌ as join}
use manglekit.Common.{
  ℕ, String, Bool, true, false, not, ◌&&◌, ◌||◌, ◌==◌, Option, none, some, List, [], ◌∷◌, ◌++◌, ltb,
  leb, eqb, Map, length, if◌then◌else◌,
}
use manglekit.Workflow.{Value, null}
use manglekit.SessionState.{Envelope, Quad, RuleInference, AuditTrail}
use manglekit.FactStore.{Atom}
use manglekit.Escape.{escape_string}
use manglekit.Supervisor.{
  TrustTier, no_tier, tier0_kernel, map_core_tier, Decision, violation_tier, AuditResult,
  core_tier_name,
}

-- The errors by the place that makes them; `external` is an error of other code.
pub data GateError : Type 0 where
  external : ℕ → GateError
  extraction_failed : GateError → GateError
  verify_failed : GateError → GateError
  post_check_failed : GateError → GateError
  supervisor_error : GateError → GateError
  -- tier, rule, description, action, matched rule
  policy_violation : String → String → String → String → String → GateError

pub data Result {ℓ} (A : Type ℓ) : Type ℓ where
  ok : A → Result A
  err : GateError → Result A

-- What `Reflect` answers: nothing, an alignment error by its message, rule and tier, or another.
pub data Reflected : Type 0 where
  fine : Reflected
  misaligned : String → String → String → Reflected
  broken : ℕ → Reflected

-- preCheckContext
pub record PreCheck : Type 0 where
  pub action_name : String
  pub metadata : Map Value
  pub labels : List String
  pub facts : List String
  pub entity_id : String

pub record Env : Type 1 where
  pub World : Type 0
  pub assess_plan : Envelope → World → Result Decision × World
  pub reflect : String → Envelope → World → Reflected × World
  -- the supervised action
  pub inner : Envelope → World → Result Envelope × World
  pub extract : String → World → Result Value × World
  -- the `mangle` tag and the printed value of each field of a struct; none of any other value
  pub fields : Value → List (String × String)
  -- `"%q"`, `"%d"`, and an audit trail as an `any`
  pub quote : String → String
  pub print : ℕ → String
  pub trail_value : AuditTrail → Value

-- `[A-Za-z_]`, and with digits
abbrev is_letter : ℕ → Bool
is_letter c = (leb 65 c && leb c 90) || ((leb 97 c && leb c 122) || eqb c 95)

abbrev is_word_char : ℕ → Bool
is_word_char c = is_letter c || (leb 48 c && leb c 57)

abbrev all_word_chars : String → Bool
all_word_chars String.[] = true
all_word_chars (String.◌∷◌ c s) = is_word_char (code c) && all_word_chars s

-- `predicateIdentRE.MatchString`
unfoldable pub is_identifier : String → Bool
is_identifier String.[] = false
is_identifier (String.◌∷◌ c s) = is_letter (code c) && all_word_chars s

unfoldable pub atom_to_datalog : String → String → String → String
atom_to_datalog pred subject object =
    if not (is_identifier pred)
    then ""
    else join pred (
        join "(\""
          (join (escape_string subject) (join "\", \"" (join (escape_string object) "\")."))))

-- The facts of the atoms that have a subject and a predicate that is an identifier.
abbrev pub atom_facts : List Atom → List String
atom_facts [] = []
atom_facts (a ∷ rest) =
    let more = atom_facts rest in
    let fact = atom_to_datalog a.predicate a.subject a.object in
    if a.subject == "" || (a.predicate == "" || fact == "") then more else fact ∷ more

abbrev pub quads_to_atoms : List Quad → List Atom
quads_to_atoms [] = []
quads_to_atoms (q ∷ rest) =
    record { subject = q.subject; predicate = q.predicate; object = q.object } ∷ quads_to_atoms rest

abbrev pub max_facts_per_verify : ℕ
max_facts_per_verify = 1000

abbrev pub bare_envelope : Value → List Quad → Envelope
bare_envelope payload quads = record {
  id = "";
  payload = payload;
  metadata = [];
  error = none;
  security_labels = [];
  facts = [];
  content_type = "";
  context_facts = quads;
  violations = [];
}

-- The first matched rule that has a definition and the tier of the violation.
abbrev rule_of_tier : List RuleInference → (TrustTier → Bool) → Option RuleInference
rule_of_tier [] same = none
rule_of_tier (r ∷ rs) same =
    let rest = rule_of_tier rs same in
    if not (r.definition == "") && (not (r.tier == "") && same (map_core_tier r.tier))
    then some r
    else rest

abbrev first_definition : List RuleInference → String
first_definition [] = ""
first_definition (r ∷ rs) =
    let rest = first_definition rs in if r.definition == "" then rest else r.definition

-- `==` of two tiers
abbrev same_tier : TrustTier → TrustTier → Bool
same_tier t u = core_tier_name t == core_tier_name u

-- policyViolationFromResult
unfoldable pub policy_violation_of : Option PreCheck → AuditResult → String → GateError
policy_violation_of pc res description =
    let name : String = elim pc [ none ↦ "" | some p ↦ p.action_name ] in
    let tier = core_tier_name res.violation_tier in
    elim res.trail [
      | none ↦ policy_violation tier res.conflict_path description name ""
      | some t ↦ elim (rule_of_tier t.matched_rules (same_tier res.violation_tier)) [
        | some r ↦ policy_violation r.tier res.conflict_path description name r.definition
        | none ↦
            policy_violation tier res.conflict_path description name
              (first_definition t.matched_rules)
      ]
    ]

abbrev pub passed : Option AuditTrail → AuditResult
passed trail = record { pass = true; violation_tier = no_tier; conflict_path = ""; trail = trail }

abbrev pub failed_with : TrustTier → String → Option AuditTrail → AuditResult
failed_with tier path trail = record {
  pass = false;
  violation_tier = tier;
  conflict_path = path;
  trail = trail;
}

module _ (env : Env) where
  open env use {World, assess_plan, reflect, fields, quote, print}

  abbrev tagged : String → List (String × String) → List Quad
  tagged subject [] = []
  tagged subject ((tag, printed) ∷ rest) =
      let more = tagged subject rest in
      if tag == ""
      then more
      else record {
        subject = subject;
        predicate = tag;
        object = printed;
        graph = "temporal_context";
      }
        ∷ more

  unfoldable pub flatten_to_quads : String → Value → List Quad
  flatten_to_quads subject v = tagged subject (fields v)

  -- The facts, labels and metadata that a check hands to the engine.
  unfoldable pub check_envelope : Option PreCheck → List Atom → Envelope
  check_envelope none atoms = record (bare_envelope null []) { facts = atom_facts atoms }
  check_envelope (some p) atoms =
      let operation = join "action_operation(" (
        join (quote (if p.entity_id == "" then "Req" else p.entity_id))
          (join ", " (join (quote p.action_name) ")."))) in
      let named = if p.action_name == "" then [] else operation ∷ [] in
      record (bare_envelope null []) {
        metadata = p.metadata;
        security_labels = p.labels;
        facts = (atom_facts atoms ++ p.facts) ++ named;
      }

  unfoldable pub reflected : Reflected → Result AuditResult
  reflected fine = ok (passed none)
  reflected (misaligned message rule tier) =
      let path = if message == "" then "sdk_adapter.post_check" else message in
      ok (failed_with (map_core_tier tier) (if rule == "" then path else rule) none)
  reflected (broken e) = err (post_check_failed (external e))

  unfoldable pub assessed : Result Decision → Result AuditResult
  assessed (err e) = err (verify_failed e)
  assessed (ok d) =
      if d.outcome == "HALT"
      then ok (
          failed_with (violation_tier d) (elim d.reasons [ [] ↦ "unknown" | r ∷ rs ↦ r ])
            d.audit_trail)
      else ok (passed d.audit_trail)

  -- The check goes to `Reflect` where its entity is the output of a named action.
  abbrev pub is_post_check : Option PreCheck → Bool
  is_post_check none = false
  is_post_check (some p) = p.entity_id == "Output" && not (p.action_name == "")

  abbrev action_of : Option PreCheck → String
  action_of none = ""
  action_of (some p) = p.action_name

  abbrev is_empty_check : Option PreCheck → List Atom → Bool
  is_empty_check none [] = true
  is_empty_check _ _ = false

  abbrev pub over_limit : ℕ → AuditResult
  over_limit n =
      failed_with tier0_kernel (join "sdk_adapter.fact_limit_exceeded (" (join (print n) ">1000)"))
        none

  unfoldable pub verify_atoms : Option PreCheck → List Atom → World → Result AuditResult × World
  verify_atoms pc atoms w =
      let e = check_envelope pc atoms in
      let (r, w1) = reflect (action_of pc) e w in
      let (d, w2) = assess_plan e w in
      if is_empty_check pc atoms
      then (ok (passed none), w)
      else if ltb max_facts_per_verify (length atoms)
      then (ok (over_limit (length atoms)), w)
      else if is_post_check pc
      then (reflected r, w1)
      else (assessed d, w2)
