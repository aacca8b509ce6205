-- ===== src/Supervisor.antt =====
-- internal/supervisor/action.go and internal/supervisor/sdk_adapter.go: the gate around an action.
-- The policy engine, the action, the extractor and the reflection over Go values are parameters.
pub mod Tiers
pub mod Gate
pub mod Action
pub mod Enforced
mod Tests
use manglekit.Common.{
  ℕ, zero, suc, String, Bool, true, false, not, ◌&&◌, ◌||◌, ◌==◌, Option, none, some, List, [], ◌∷◌,
  ◌++◌, ltb, Map, length, if◌then◌else◌,
}
use manglekit.Workflow.{Value}
use manglekit.SessionState.{Envelope, Quad, RuleInference, AuditTrail}

-- TrustTier; `no_tier` is the empty text.
pub data TrustTier : Type 0 where
  no_tier tier0_kernel tier1_admin tier2_ai tier3_user : TrustTier

-- A tier of the engine is its text, "T0" to "T3", or any other.
unfoldable pub map_core_tier : String → TrustTier
map_core_tier t =
    if t == "T0"
    then tier0_kernel
    else if t == "T1"
    then tier1_admin
    else if t == "T2"
    then tier2_ai
    else if t == "T3"
    then tier3_user
    else tier1_admin

unfoldable pub tier_severity : String → ℕ
tier_severity t =
    if t == "T0"
    then 0
    else if t == "T1" || t == ""
    then 1
    else if t == "T2"
    then 2
    else if t == "T3"
    then 3
    else 1

-- The loop of `violationTierFromDecision`.
unfoldable pub most_severe : List RuleInference → String → String
most_severe [] severe = severe
most_severe (r ∷ rs) severe = most_severe rs (
    if not (r.tier == "") && (severe == "" || ltb (tier_severity r.tier) (tier_severity severe))
    then r.tier
    else severe)

-- Decision, as far as the gate reads it
pub record Decision : Type 0 where
  pub outcome : String
  pub reasons : List String
  pub audit_trail : Option AuditTrail

unfoldable pub violation_tier : Decision → TrustTier
violation_tier d = elim d.audit_trail [
  | none ↦ tier1_admin
  | some t ↦ map_core_tier (most_severe t.matched_rules "")
]

pub record AuditResult : Type 0 where
  pub pass : Bool
  pub violation_tier : TrustTier
  pub conflict_path : String
  pub trail : Option AuditTrail

-- `res.ViolationTier == Tier0Kernel || res.ViolationTier == Tier1Admin`
abbrev pub is_blocking : TrustTier → Bool
is_blocking tier0_kernel = true
is_blocking tier1_admin = true
is_blocking _ = false

abbrev pub blocks : AuditResult → Bool
blocks r = not r.pass && is_blocking r.violation_tier

-- coreTierName
abbrev pub core_tier_name : TrustTier → String
core_tier_name tier0_kernel = "T0"
core_tier_name tier1_admin = "T1"
core_tier_name tier2_ai = "T2"
core_tier_name tier3_user = "T3"
core_tier_name no_tier = ""
