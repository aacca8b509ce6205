-- ===== src/Workflow.antt =====
-- The data of the workflow executors: core/workflow.go, multiagent/agent_system.go and
-- multiagent/workflow_executor.go. Time stamps are left out: nothing reads them but the log.
pub mod Graph
pub mod Attempts
pub mod Loop
pub mod Execute
pub mod Def
pub mod Instance
pub mod Hydrated
pub mod Session
pub mod Parallel
mod Tests
use manglekit.Common.{◌≡◌, refl, ◌⊎◌, inl, inr, ℕ, Bool, String, Option, List, Map}

-- `interface{}` as far as the executors look into one: `nil`, a string, and any other value.
pub data Value : Type 0 where
  null : Value
  str : String → Value
  other : ℕ → Value

-- The errors by the place that makes them; `external` is an error of other code.
pub data Err : Type 0 where
  workflow_is_nil : Err
  no_start_node : Err
  max_retries_exceeded : String → Err
  no_agents : String → Err
  node_not_found : String → Err
  context_done : ℕ → Err
  create_failed : Err → Err
  external : ℕ → Err

pub data Result {ℓ} (A : Type ℓ) : Type ℓ where
  ok : A → Result A
  err : Err → Result A

pub Result-cases {ℓ} :
    {A : Type ℓ} (r : Result A) → ((a : A) × (r ≡ ok a)) ⊎ ((e : Err) × (r ≡ err e))
Result-cases (ok a) = inl (a, refl)
Result-cases (err e) = inr (e, refl)

-- WorkflowStatus
pub data Status : Type 0 where
  pending running completed failed cancelled : Status

pub record Agent : Type 0 where
  pub id : String
  pub role : String

-- WorkflowNode
pub record Node : Type 0 where
  pub id : String
  pub type : String
  pub agent : String
  pub config : Map String

-- WorkflowEdge, EdgeDef
pub record Edge : Type 0 where
  pub from : String
  pub to : String
  pub condition : String

pub record Workflow : Type 0 where
  pub id : String
  pub name : String
  pub version : String
  pub nodes : List Node
  pub edges : List Edge

-- NodeResult: `null` is the output of a node that failed.
pub record NodeResult : Type 0 where
  pub node_id : String
  pub agent_id : String
  pub input : Value
  pub output : Value
  pub error : Option Err
  pub retry_count : ℕ

pub record WorkflowResult : Type 0 where
  pub workflow_id : String
  pub status : Status
  pub output : Value
  pub node_results : Map NodeResult
  pub error : Option Err

-- What an executor asks of other code. A `World` is all that this code may look at or change: the
-- clock, the context's deadline, the model behind a node, the policy engine.
pub record Env : Type 1 where
  pub World : Type 0
  -- `ctx.Err()`
  pub ctx_err : World → Option Err × World
  -- `nodeExecutor.Execute`
  pub execute : Node → Value → Agent → World → Result Value × World
  -- the `select` between `ctx.Done()` and a timer of that many seconds: the context's error, or
  -- nothing if the timer fired first
  pub wait : ℕ → World → Option Err × World
  -- `agentSystem.FindAgentsForTask`, `agentFinder.FindAgentsByRole`
  pub find_agents : String → World → Result (List Agent) × World
  -- `agentSystem.Query`: facts and a query, to the number of answers
  pub query : List String → String → World → Result ℕ × World
  -- `conditionEval.EvaluateCondition`
  pub evaluate_condition : String → Map Value → World → Result Bool × World
  -- `fmt.Sprintf("%v", v)` of a value that is no string
  pub print : ℕ → String
