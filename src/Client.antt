-- ===== src/Client.antt =====
-- The agent loop of sdk/loop.go: its parameters and what it asks of other code. A number of steps
-- below 1 counts as 0 everywhere, so it is a natural number.
pub mod Similar
pub mod Context
pub mod Step
pub mod Run
mod Tests
use manglekit.Common.{
  ℕ, String, Bool, true, false, ◌==◌, Option, none, some, List, [], ◌∷◌, Map, lookup, insert,
}
use manglekit.Workflow.{Value, null, str, other}
use manglekit.SessionState.{Envelope, Message, AuditRecord, AuditTrail}
use manglekit.SessionState.Manager.{Provider}
use manglekit.Client.Similar.{Unicode}

-- The errors by the place that makes them; `alignment` is an `AlignmentError` by its message, and
-- `wrapped` another's error with a text around one that it wraps.
pub data Error : Type 0 where
  alignment : String → Error
  action_not_found : String → Error
  alignment_retries_exceeded : Error → Error
  retries_exceeded : String → Error
  thrashing : String → Error
  halted : String → Error
  missing_next_step : Error
  max_steps_exceeded : Error
  external : ℕ → Error
  wrapped : String → Error → Error

pub data Result {ℓ} (A : Type ℓ) : Type ℓ where
  ok : A → Result A
  err : Error → Result A

-- MemoryMode
pub data MemoryMode : Type 0 where
  off transient persist : MemoryMode

-- ExecutionParams
pub record Params : Type 0 where
  pub session_id : String
  pub memory_mode : MemoryMode
  pub metadata : Map String
  pub fwd_facts : List String
  pub fwd_labels : List String
  pub fwd_meta : Map Value
  pub max_steps : ℕ
  pub audit_records : List AuditRecord
  pub current_history : List Message
  pub feedback_history : List String
  pub last_feedback : String
  pub retry_count : ℕ

-- The fields of `Client` that the loop reads; the registry gives an action's input content type.
pub record Client : Type 0 where
  pub max_steps : ℕ
  pub steering_enabled : Bool
  pub has_memory : Bool
  pub has_engine : Bool
  pub has_state_manager : Bool
  pub shutting_down : Bool
  pub registry : Map String

-- What the loop asks of other code, over the world of the provider of states.
pub record Env : Type 1 where
  pub provider : Provider
  pub unicode : Unicode
  -- `ctx.Err()`, and `core.ContextFacts(ctx)`
  pub ctx_err : provider.World → Option Error × provider.World
  pub context_facts : Map String
  -- `uuid.New()`
  pub new_id : provider.World → String × provider.World
  -- `action.Execute`
  pub execute : String → Envelope → provider.World → Result Envelope × provider.World
  pub evaluate_steering : Envelope → provider.World → Result (String × Map String) × provider.World
  pub check_requirement : Envelope → provider.World → Result Bool × provider.World
  -- `Recall`, or `RecallWithFacts` where the memory has it
  pub recall : String → provider.World → Result (String × Map Value) × provider.World
  -- `Memorize`, in the background
  pub memorize : String → String → provider.World → provider.World
  -- `Read` and `Append` of the memory's history
  pub read_history : String → provider.World → List Message × provider.World
  pub append_history : String → List Message → provider.World → provider.World
  -- the `select` between `ctx.Done()` and a timer of that many tenths of a second
  pub wait : ℕ → provider.World → Option Error × provider.World
  -- `json.Marshal` of a history, `fmt.Sprintf("%v", v)` and `"%s"` of a value that is no string
  pub marshal : List Message → String
  pub print : ℕ → String
  pub print_text : ℕ → String
  -- the value as an `*AuditTrail`
  pub audit_trail : ℕ → Option AuditTrail

abbrev pub default_max_steps : ℕ
default_max_steps = 10

abbrev pub default_max_retries : ℕ
default_max_retries = 3

-- `m[k]`: a missing key gives `nil`.
abbrev pub meta : String → Map Value → Value
meta k m = elim (lookup k m) [ none ↦ null | some v ↦ v ]

-- `v == s`: `nil` is not the empty text.
abbrev pub is_text : String → Value → Bool
is_text s null = false
is_text s (str t) = t == s
is_text s (other n) = false

abbrev pub decision : Envelope → Value
decision e = meta "manglekit.decision" e.metadata

-- `for k, v := range m { dst[k] = v }`
abbrev pub put_all : Map Value → Map Value → Map Value
put_all [] dst = dst
put_all ((k, v) ∷ m) dst = put_all m (insert k v dst)

abbrev pub put_texts : Map String → Map Value → Map Value
put_texts [] dst = dst
put_texts ((k, v) ∷ m) dst = put_texts m (insert k (str v) dst)
