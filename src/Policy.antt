-- ===== src/Policy.antt =====
-- internal/engine/solver.go: what `PolicyEngine` asks of the Datalog runtime, and the decisions that it
-- makes of the answers. The runtime's queries, the library's terms and the reflection over Go values
-- are the record `Engine`.
pub mod Facts
pub mod Gate
pub mod Steering
pub mod Best
pub mod Plan
pub mod Passed
pub mod Cached
pub mod Halted
pub mod Assessed
pub mod Steered
mod Tests
use manglekit.Common.{ℕ, String, Bool, Option, List, Map}
use manglekit.Explain.{Atom}
use manglekit.Workflow.{Value}

pub record Engine : Type 1 where
  pub World : Type 0
  pub Constant : Type 0
  -- a string constant, and the numeric constant of a text that is a number
  pub text : String → Constant
  pub number : String → Option Constant
  pub parse_atom : String → Option (Atom Constant)
  pub is_ready : World → Bool
  -- the solutions up to an error, and whether there was one
  pub query_with_solutions :
      List (Atom Constant) → String → World → (List (Map String) × Bool) × World
  -- none is an error
  pub execute_query : List (Atom Constant) → String → World → Option Bool × World
  -- the facts of a payload, as JSON and as a struct
  pub flatten : String → Value → Option (List String)
  pub to_facts : String → Value → Option (List String)
  -- `%v`, and the elements of a slice or an array
  pub print : Value → String
  pub elements : Value → Option (List Value)

-- AlignmentError
pub record AlignmentError : Type 0 where
  pub message : String
  pub rule_id : String
  pub action_name : String
  pub matched_rule : String
  pub tier : String
