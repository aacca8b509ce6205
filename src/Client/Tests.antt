-- ===== src/Client/Tests.antt =====
-- A client with one action, which is refused once and then answers.
use manglekit.Common.{
  ℕ, zero, suc, ◌≡◌, String, true, false, none, some, [], ◌∷◌, arith, Bool-cases, ◌==◌, inl, inr,
}
use manglekit.Workflow.{str}
use manglekit.SessionState.{Envelope, SessionState}
use manglekit.SessionState.Manager.{Provider, value, hydrate, retrieved, checked}
use manglekit.Client.{alignment, external, ok, err, MemoryMode, Params, Client, Env}
use manglekit.Client.Similar.{Unicode}
use manglekit.Client.Step.{execute_single_step}
use manglekit.Client.Context.{new_envelope}
use manglekit.Client.Step.Sound.{IsWithin, InBounds, Leaves, execute_single_step-Leaves}
use manglekit.Client.Run.{plain, execute_by_name, step_limit}
use manglekit.Client.Run.Bounded.{IsBounded, execute_by_name-IsBounded}

abbrev provider : Provider
provider = record {
  World = ℕ;
  Bytes = Unit;
  get = λ id w. (value none, w);
  set = λ id s w. (none, w);
  delete = λ id w. (none, w);
  load_facts = λ fs w. w;
  marshal = λ s. some tt;
  unmarshal = λ b. none;
  marshal_unknown = λ n. none;
  type_name = λ v. "string";
}

abbrev unicode : Unicode
unicode = record { is_punct = λ c. false; is_space = λ c. false; to_lower = λ c. c }

abbrev answer : Envelope
answer = new_envelope "e" (str "out")

abbrev env : Env
env = record {
  provider = provider;
  unicode = unicode;
  ctx_err = λ w. (none, w);
  context_facts = [];
  new_id = λ w. ("e", w);
  execute = λ name e w. (elim w [ zero ↦ err (alignment "hint") | suc k ↦ ok answer ], suc w);
  evaluate_steering = λ e w. (err (external 1), w);
  check_requirement = λ e w. (ok true, w);
  recall = λ s w. (err (external 2), w);
  memorize = λ q a w. w;
  read_history = λ s w. ([], w);
  append_history = λ s h w. w;
  wait = λ k w. (none, w);
  marshal = λ h. "[]";
  print = λ n. "n";
  print_text = λ n. "n";
  audit_trail = λ n. none;
}

abbrev client : Client
client = record {
  max_steps = 0;
  steering_enabled = true;
  has_memory = true;
  has_engine = true;
  has_state_manager = true;
  shutting_down = false;
  registry = ("act", "STRUCT") ∷ [];
}

abbrev params : Params
params = record {
  session_id = "s";
  memory_mode = MemoryMode.transient;
  metadata = [];
  fwd_facts = [];
  fwd_labels = [];
  fwd_meta = [];
  max_steps = 5;
  audit_records = [];
  current_history = [];
  feedback_history = [];
  last_feedback = "";
  retry_count = 0;
}

params-InBounds : InBounds unicode params
params-InBounds = record { retries = omega arith; fewer = omega arith; distinct = tt }

-- The provider has no state for any session.
no_state :
    (id : String) (w : ℕ) (s : SessionState)
    → (hydrate provider id w).0 ≡ value (some s)
    → IsWithin unicode s.execution_ctx.retry_count s.execution_ctx.feedback_history
unfolding hydrate retrieved checked
no_state id w s h = elim (Bool-cases (id == "")) [
  | inl z ↦ absurd (cc (rw (z, hydrate) at h))
  | inr z ↦ absurd (cc (rw (z, hydrate) at h))
]

execute_single_step-Leaves_example :
    Leaves env client params (execute_single_step env client "act" (str "in") params 0)
execute_single_step-Leaves_example =
    execute_single_step-Leaves env client "act" (str "in") params 0 params-InBounds

execute_by_name-IsBounded_example :
    IsBounded env client
      (step_limit env client params)
      params
      (execute_by_name env client "act" (plain (str "in")) params 0)
execute_by_name-IsBounded_example =
    execute_by_name-IsBounded env client no_state "act" (plain (str "in")) params 0 params-InBounds
