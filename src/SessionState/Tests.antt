-- ===== src/SessionState/Tests.antt =====
-- A state, and a provider that keeps one text for each session; the text of a state is the state.
use mathlib.Core.Option
use manglekit.Common.{
  ◌≡◌, refl, sym, String, none, some, [], ◌∷◌, Map, lookup, insert, lookup-insert, eq_refl,
}
use manglekit.Workflow.{str}
use manglekit.SessionState.{Envelope, SessionState, validate}
use manglekit.SessionState.Manager.{
  Provider, encoded, prime, marshal_json, with_payload_type, value, hydrate, checkpoint,
  hydrate-checkpoint,
}

abbrev an_envelope : Envelope
an_envelope = record {
  id = "id-1";
  payload = str "in";
  metadata = ("k", str "v") ∷ [];
  error = none;
  security_labels = "pii" ∷ [];
  facts = "f(1)" ∷ [];
  content_type = "STRUCT";
  context_facts = record { subject = "a"; predicate = "b"; object = "c"; graph = "g" } ∷ [];
  violations = [];
}

abbrev a_state : SessionState
a_state = record {
  session_id = "s";
  active_envelope = an_envelope;
  execution_ctx = record { retry_count = 1; feedback_history = "hint" ∷ []; current_history = [] };
  logical_facts = "f(1)" ∷ [];
  payload_type = "";
  audit_records = [];
}

abbrev provider : Provider
provider = record {
  World = Map SessionState;
  Bytes = SessionState;
  get = λ id m. (value (Option.map (λ (s : SessionState). encoded s) (lookup id m)), m);
  set = λ id s m. (none, insert id s m);
  delete = λ id m. (none, m);
  load_facts = λ fs m. m;
  marshal = λ s. some s;
  unmarshal = λ b. some b;
  marshal_unknown = λ n. none;
  type_name = λ v. "string";
}

provider-get_set :
    (id : String) (s : SessionState) (m : Map SessionState)
    → (provider.set id s m).0 ≡ none
    → (provider.get id (provider.set id s m).1).0 ≡ value (some (encoded s))
provider-get_set id s m h = rw (lookup-insert id id s m, eq_refl id) refl

hydrate-checkpoint_example :
    let w = (checkpoint provider a_state []).1 in
    ((hydrate provider "s" w).0 ≡ value (some (record a_state { payload_type = "string" })))
    × ((hydrate provider "s" w).1 ≡ prime provider ("f(1)" ∷ []) (provider.get "s" w).1)
unfolding checkpoint validate marshal_json with_payload_type
hydrate-checkpoint_example =
    hydrate-checkpoint provider provider-get_set a_state [] (λ b h. sym h) refl
