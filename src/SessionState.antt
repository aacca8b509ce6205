-- ===== src/SessionState.antt =====
-- The state of a session that outlives a run: `SessionState` of core/session_state.go with the
-- envelope of core/types.go that it holds, and internal/statemanager/manager.go, which loads and
-- saves it. A nil slice or map and an empty one are the same list here.
pub mod Copies
pub mod Manager
mod Tests
use manglekit.Common.{ℕ, String, ◌==◌, Option, none, some, List, [], ◌∷◌, ◌++◌, Map, if◌then◌else◌}
use manglekit.Workflow.{Value}

-- Quad
pub record Quad : Type 0 where
  pub subject : String
  pub predicate : String
  pub object : String
  pub graph : String

-- ViolationRule
pub record ViolationRule : Type 0 where
  pub rule_id : String
  pub description : String
  pub severity : ℕ

-- Envelope; the id is the text of a UUID, and an error is a number.
pub record Envelope : Type 0 where
  pub id : String
  pub payload : Value
  pub metadata : Map Value
  pub error : Option ℕ
  pub security_labels : List String
  pub facts : List String
  pub content_type : String
  pub context_facts : List Quad
  pub violations : List ViolationRule

-- Message
pub record Message : Type 0 where
  pub role : String
  pub content : String

-- ExecutionContext
pub record ExecutionContext : Type 0 where
  pub retry_count : ℕ
  pub feedback_history : List String
  pub current_history : List Message

pub record RuleSnapshot : Type 0 where
  pub rule_name : String
  pub tier : String
  pub definition : String
  pub source_file : String
  pub predicate : String
  pub bindings : Map String

pub record AuditRecord : Type 0 where
  pub step : ℕ
  pub rules : List RuleSnapshot
  pub outcome : String
  pub timestamp : String
  pub latency_ms : ℕ
  pub fact_count : ℕ
  pub matched_count : ℕ

pub record SessionState : Type 0 where
  pub session_id : String
  pub active_envelope : Envelope
  pub execution_ctx : ExecutionContext
  pub logical_facts : List String
  pub payload_type : String
  pub audit_records : List AuditRecord

-- RuleInference
pub record RuleInference : Type 0 where
  pub rule_name : String
  pub tier : String
  pub definition : String
  pub source_file : String
  pub bindings : Map String
  pub predicate : String

-- AuditTrail; the time stamp is its RFC 3339 text.
pub record AuditTrail : Type 0 where
  pub matched_rules : List RuleInference
  pub timestamp : String
  pub engine_id : String
  pub query : String
  pub fact_count : ℕ
  pub matched_count : ℕ
  pub latency_ms : ℕ

abbrev pub snapshot : RuleInference → RuleSnapshot
snapshot r = record {
  rule_name = r.rule_name;
  tier = r.tier;
  definition = r.definition;
  source_file = r.source_file;
  predicate = r.predicate;
  bindings = r.bindings;
}

-- The loop of `NewAuditRecordFromTrail`.
abbrev pub snapshots : List RuleInference → List RuleSnapshot → List RuleSnapshot
snapshots [] rules = rules
snapshots (r ∷ rs) rules = snapshots rs (rules ++ (snapshot r ∷ []))

abbrev pub plain_record : ℕ → String → AuditRecord
plain_record step outcome = record {
  step = step;
  rules = [];
  outcome = outcome;
  timestamp = "";
  latency_ms = 0;
  fact_count = 0;
  matched_count = 0;
}

unfoldable pub new_audit_record_from_trail : Option AuditTrail → ℕ → String → AuditRecord
new_audit_record_from_trail none step outcome = plain_record step outcome
new_audit_record_from_trail (some trail) step outcome = record {
  step = step;
  rules = snapshots trail.matched_rules [];
  outcome = outcome;
  timestamp = trail.timestamp;
  latency_ms = trail.latency_ms;
  fact_count = trail.fact_count;
  matched_count = trail.matched_count;
}

-- `copy(dst, src)` into a new slice, and a map copied entry by entry.
abbrev pub copy_list {ℓ} : {A : Type ℓ} → List A → List A
copy_list [] = []
copy_list (x ∷ xs) = x ∷ copy_list xs

abbrev pub copy_rules : List RuleSnapshot → List RuleSnapshot
copy_rules [] = []
copy_rules (r ∷ rs) =
    record {
      rule_name = r.rule_name;
      tier = r.tier;
      definition = r.definition;
      source_file = r.source_file;
      predicate = r.predicate;
      bindings = copy_list r.bindings;
    }
    ∷ copy_rules rs

abbrev pub copy_records : List AuditRecord → List AuditRecord
copy_records [] = []
copy_records (r ∷ rs) =
    record {
      step = r.step;
      rules = copy_rules r.rules;
      outcome = r.outcome;
      timestamp = r.timestamp;
      latency_ms = r.latency_ms;
      fact_count = r.fact_count;
      matched_count = r.matched_count;
    }
    ∷ copy_records rs

unfoldable pub clone : SessionState → SessionState
clone s = record {
  session_id = s.session_id;
  active_envelope = record {
    id = s.active_envelope.id;
    payload = s.active_envelope.payload;
    metadata = copy_list s.active_envelope.metadata;
    error = s.active_envelope.error;
    security_labels = copy_list s.active_envelope.security_labels;
    facts = copy_list s.active_envelope.facts;
    content_type = s.active_envelope.content_type;
    context_facts = [];
    violations = [];
  };
  execution_ctx = record {
    retry_count = s.execution_ctx.retry_count;
    feedback_history = copy_list s.execution_ctx.feedback_history;
    current_history = copy_list s.execution_ctx.current_history;
  };
  logical_facts = copy_list s.logical_facts;
  payload_type = s.payload_type;
  audit_records = copy_records s.audit_records;
}

pub data Invalid : Type 0 where
  no_session_id no_envelope_id : Invalid

-- `none` is Go's `nil`: the state is valid.
unfoldable pub validate : SessionState → Option Invalid
validate s =
    if s.session_id == ""
    then some no_session_id
    else if s.active_envelope.id == "00000000-0000-0000-0000-000000000000"
    then some no_envelope_id
    else none
