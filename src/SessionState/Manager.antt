-- ===== src/SessionState/Manager.antt =====
-- internal/statemanager/manager.go, with `MarshalJSON` and `UnmarshalJSON` of core/session_state.go:
-- what is loaded from and saved to the provider of states. The provider and the encoding/json of a
-- struct without methods of its own are parameters.
use manglekit.Common.{
  ◌≡◌, refl, ◌∙◌, ℕ, String, ◌==◌, false, Option, none, some, Option-cases, List, [], ◌∷◌, inl, inr,
  if◌then◌else◌, arith,
}
use manglekit.Workflow.{Value, null, str, other}
use manglekit.SessionState.{Envelope, SessionState, Invalid, validate, copy_list}

pub data ManagerError : Type 0 where
  empty_session_id : ManagerError
  from_provider : ℕ → ManagerError
  marshal_failed unmarshal_failed : ManagerError
  invalid_state : Invalid → ManagerError

-- What a call returns: a value or an error.
pub data Returned {ℓ} (A : Type ℓ) : Type ℓ where
  value : A → Returned A
  failure : ManagerError → Returned A

-- What a provider may give back: bytes or a text, a state, or something else, by a number.
pub data Raw (Bytes : Type 0) : Type 0 where
  encoded : Bytes → Raw Bytes
  state : SessionState → Raw Bytes
  unknown : ℕ → Raw Bytes

-- `core.StateProvider` and `core.Evaluator` as far as the manager uses them, and encoding/json.
pub record Provider : Type 1 where
  pub World : Type 0
  pub Bytes : Type 0
  pub get : String → World → Returned (Option (Raw Bytes)) × World
  -- an error is a number
  pub set : String → Bytes → World → Option ℕ × World
  pub delete : String → World → Option ℕ × World
  -- `engine.LoadFacts`, whose error is only logged
  pub load_facts : List String → World → World
  -- `json.Marshal` and `json.Unmarshal` of the alias, which has no methods
  pub marshal : SessionState → Option Bytes
  pub unmarshal : Bytes → Option SessionState
  pub marshal_unknown : ℕ → Option Bytes
  -- `"%T"`
  pub type_name : Value → String

validate-named : (s : SessionState) → validate s ≡ none → (s.session_id == "") ≡ false
unfolding validate
validate-named s h = ground arith

module _ (p : Provider) where
  open p use {World, Bytes, get, set, delete, load_facts, marshal, unmarshal, type_name}

  -- `m.engine` is set.
  abbrev pub prime : List String → World → World
  prime [] w = w
  prime (f ∷ fs) w = load_facts (f ∷ fs) w

  -- The copy of a state that `MarshalJSON` writes: with the name of its payload's type.
  unfoldable pub with_payload_type : Value → SessionState → SessionState
  with_payload_type null s = s
  with_payload_type v s = record s { payload_type = type_name v }

  abbrev pub typed : SessionState → SessionState
  typed s = with_payload_type s.active_envelope.payload s

  unfoldable pub marshal_json : SessionState → Option Bytes
  marshal_json s = marshal (typed s)

  -- `UnmarshalJSON` on a new state
  unfoldable pub unmarshal_json : Bytes → Returned SessionState
  unmarshal_json b = elim (unmarshal b) [ none ↦ failure unmarshal_failed | some s ↦ value s ]

  -- The switch on the type of what the provider gave back.
  unfoldable pub decode_state : Raw Bytes → Returned SessionState
  decode_state (encoded b) = unmarshal_json b
  decode_state (state s) = value s
  decode_state (unknown n) = elim (p.marshal_unknown n) [
    | none ↦ failure marshal_failed
    | some b ↦ unmarshal_json b
  ]

  unfoldable pub checked : Returned SessionState → World → Returned (Option SessionState) × World
  checked (failure e) w = (failure e, w)
  checked (value s) w = elim (validate s) [
    | some e ↦ (failure (invalid_state e), w)
    | none ↦ (value (some s), prime s.logical_facts w)
  ]

  unfoldable pub retrieved :
      Returned (Option (Raw Bytes)) → World → Returned (Option SessionState) × World
  retrieved (failure e) w = (failure e, w)
  retrieved (value none) w = (value none, w)
  retrieved (value (some raw)) w = checked (decode_state raw) w

  -- `value none` is a session with no state yet.
  unfoldable pub hydrate : String → World → Returned (Option SessionState) × World
  hydrate id w =
      if id == "" then (failure empty_session_id, w) else let (r, w1) = get id w in retrieved r w1

  abbrev pub saved : Option ℕ → Option ManagerError
  saved none = none
  saved (some e) = some (from_provider e)

  unfoldable pub checkpoint : SessionState → World → Option ManagerError × World
  checkpoint s w = elim (validate s) [
    | some e ↦ (some (invalid_state e), w)
    | none ↦ elim (marshal_json s) [
      | none ↦ (some marshal_failed, w)
      | some b ↦ let (r, w1) = set s.session_id b w in (saved r, w1)
    ]
  ]

  unfoldable pub extract_facts : Envelope → List String
  extract_facts e = copy_list e.facts

  unfoldable pub delete_state : String → World → Option ManagerError × World
  delete_state id w =
      if id == "" then (some empty_session_id, w) else let (r, w1) = delete id w in (saved r, w1)

  saved-none : (r : Option ℕ) → saved r ≡ none → r ≡ none
  saved-none none h = refl
  saved-none (some e) h = absurd (cc)

  -- The name of the payload's type is not checked, and names no session.
  validate-with_payload_type :
      (v : Value) (s : SessionState) → validate (with_payload_type v s) ≡ validate s
  unfolding validate with_payload_type
  validate-with_payload_type null s = refl
  validate-with_payload_type (str x) s = refl
  validate-with_payload_type (other n) s = refl

  facts-with_payload_type :
      (v : Value) (s : SessionState) → (with_payload_type v s).logical_facts ≡ s.logical_facts
  unfolding with_payload_type
  facts-with_payload_type null s = refl
  facts-with_payload_type (str x) s = refl
  facts-with_payload_type (other n) s = refl

  -- An accepted checkpoint has marshalled the state, and the provider has taken the bytes.
  checkpoint-none :
      (s : SessionState) (w : World)
      → (checkpoint s w).0 ≡ none
      → (validate s ≡ none)
        × ((b : Bytes) × (marshal (typed s) ≡ some b)
            × ((set s.session_id b w).0 ≡ none)
            × ((checkpoint s w).1 ≡ (set s.session_id b w).1))
  unfolding checkpoint marshal_json
  checkpoint-none s w h = elim (Option-cases (validate s)) [
    | inr (e, z) ↦ absurd (cc (rw (z, checkpoint) at h))
    | inl z ↦ elim (Option-cases (marshal (typed s))) [
      | inl y ↦ absurd (cc (rw (z, y, checkpoint) at h))
      | inr (b, y) ↦ (
        z,
        (
          b,
          y,
          saved-none (set s.session_id b w).0 (rw (z, y, checkpoint) at h),
          rw (z, y, checkpoint) refl,
        ),
      )
    ]
  ]

  -- Once a checkpoint has been accepted, loading that session gives back the state that was saved,
  -- but with the name of its payload's type if the payload is not nil, and loads its facts into the
  -- engine: if the provider gives back the bytes that it was given last for a session, and
  -- encoding/json reads back the state that it has written.
  pub hydrate-checkpoint :
      (get-set : (id : String) (b : Bytes) (w : World)
        → (set id b w).0 ≡ none
        → (get id (set id b w).1).0 ≡ value (some (encoded b)))
      (s : SessionState) (w : World)
      (unmarshal-marshal : (b : Bytes) → marshal (typed s) ≡ some b → unmarshal b ≡ some (typed s))
      → (checkpoint s w).0 ≡ none
      → let w1 = (checkpoint s w).1 in
        ((hydrate s.session_id w1).0 ≡ value (some (typed s)))
        × ((hydrate s.session_id w1).1 ≡ prime s.logical_facts (get s.session_id w1).1)
  unfolding hydrate retrieved decode_state unmarshal_json checked
  hydrate-checkpoint get-set s w unmarshal-marshal h =
      let (valid, (b, y, accepted, after)) = checkpoint-none s w h in
      let back = get-set s.session_id b w accepted in
      let v = s.active_envelope.payload in
      let read = unmarshal-marshal b y in
      let fine = validate-with_payload_type v s ∙ valid in
      let named = validate-named s valid in
      let facts = facts-with_payload_type v s in
      (
        rw (after, named, hydrate, back, retrieved, decode_state, read, checked, fine) refl,
        rw (after, named, hydrate, back, retrieved, decode_state, read, checked, fine, facts) refl,
      )
