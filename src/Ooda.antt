-- ===== src/Ooda.antt =====
-- x/ooda: the frame that an epoch of observe, orient, decide, act and verify hands on. What the phases
-- call, the memory, the brain, the stores, the dispatcher and the executor, is the record `Parts`; it
-- reads the frame but is not taken to write to it. Durations and logging are left out.
pub mod Phases
pub mod Act
pub mod Retried
pub mod Run
pub mod Located
pub mod Registry
mod Tests
use manglekit.Common.{ℤ, ℕ, String, Bool, Option, List, Map}
use manglekit.SessionState.{AuditTrail}
use manglekit.Workflow.{Value, Err, Result}

pub data Phase : Type 0 where
  observing orienting deciding acting verifying : Phase

pub record Atom (Weight : Type 0) : Type 0 where
  pub subject : String
  pub predicate : String
  pub object : String
  pub weight : Weight

-- core.ActionEnvelope
pub record Action : Type 0 where
  pub name : String
  pub arguments : Map Value
  pub session_id : String

-- core.Decision, as far as the phases read it
pub record Decision : Type 0 where
  pub outcome : String
  pub audit_trail : Option AuditTrail
  pub action : Option Action

-- The frame's trail: none, the one that its decision points to, or another.
pub data Audit : Type 0 where
  no_trail : Audit
  of_decision : Audit
  own : AuditTrail → Audit

-- CognitiveFrame, as far as the phases read and write it
pub record Frame (Weight : Type 0) : Type 0 where
  pub id : String
  pub input : String
  pub context : List (Atom Weight)
  pub phase : Phase
  pub session_id : String
  pub workflow_id : String
  pub decision : Option Decision
  pub audit_trail : Audit
  pub action_result : Value
  pub retry_count : ℕ
  pub max_retries : ℤ

-- TransientFact
pub record Fact : Type 0 where
  pub subject : String
  pub predicate : String
  pub object : String
  pub graph : String

pub record Parts : Type 1 where
  pub World : Type 0
  pub Weight : Type 0
  pub zero_weight : Weight
  pub full_weight : Weight
  -- `KnowledgeStore.Recall`
  pub recall_knowledge : Option (String → ℕ → String → World → Result (List (Atom Weight)) × World)
  -- `TransientStore.ToAtoms` and `Put`, if there is a store
  pub has_transient : Bool
  pub to_atoms : String → World → Result (List (Atom Weight)) × World
  pub put : String → String → Fact → World → World
  -- `Memory.Recall` and `Commit`
  pub has_memory : Bool
  pub recall : String → World → Result (List (Atom Weight)) × World
  pub commit : Frame Weight → World → Option Err × World
  -- `Brain.Evaluate` and `Verify`
  pub has_brain : Bool
  pub evaluate : Frame Weight → World → Result (Option Decision) × World
  pub verify_frame : Frame Weight → World → Result (Option AuditTrail) × World
  -- `Dispatcher.Dispatch`
  pub has_dispatcher : Bool
  pub dispatch : String → Map Value → World → Result Value × World
  -- `Executor.Execute` and `Rollback`
  pub has_executor : Bool
  pub execute : Frame Weight → Decision → World → Result Value × World
  pub rollback : Frame Weight → Value → World → World
  -- the context's error, if it is done before so many seconds have passed
  pub wait : ℕ → World → Option Err × World
  -- `%v`, and whether the text in lower case has "error" or "failed" in it
  pub print : Value → String
  pub tells_failure : String → Bool
