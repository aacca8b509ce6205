-- ===== src/Client/Context.antt =====
-- `injectContext` of sdk/loop.go, with what it calls, and `NewEnvelope` of core/types.go.
use Prim.Native.String.{◌++◌ as join}
use manglekit.Common.{
  String, true, not, ◌==◌, none, some, List, [], ◌∷◌, Map, lookup, insert, if◌then◌else◌,
}
use manglekit.Workflow.{Value, null, str, other}
use manglekit.SessionState.{Envelope}
use manglekit.Client.{ok, err, MemoryMode, Params, Client, Env, put_all, put_texts}

-- NewEnvelope
abbrev pub new_envelope : String → Value → Envelope
new_envelope id payload = record {
  id = id;
  payload = payload;
  metadata = [];
  error = none;
  security_labels = [];
  facts = [];
  content_type = "STRUCT";
  context_facts = [];
  violations = [];
}

-- `strings.Join(fs, "; ")`
abbrev pub join_all : List String → String
join_all [] = ""
join_all (f ∷ []) = f
join_all (f ∷ g ∷ fs) = join f (join "; " (join_all (g ∷ fs)))

-- `if _, exists := dst[k]; !exists { dst[k] = v }`
abbrev pub put_missing : Map Value → Map Value → Map Value
put_missing [] dst = dst
put_missing ((k, v) ∷ m) dst =
    put_missing m (elim (lookup k dst) [ some u ↦ dst | none ↦ insert k v dst ])

module _ (env : Env) (c : Client) where
  open env use {
    provider, unicode, context_facts, new_id, execute, evaluate_steering, check_requirement, recall,
    memorize, append_history, wait, marshal, print, print_text,
  }

  abbrev pub World : Type 0
  World = provider.World

  unfoldable pub safely_stringify : Value → String
  safely_stringify null = ""
  safely_stringify (str s) = s
  safely_stringify (other n) = print n

  -- `GetMeta`, which `GetFeedback` calls
  abbrev pub get_meta : String → Envelope → String
  get_meta k e = elim (lookup k e.metadata) [
    | none ↦ ""
    | some v ↦ elim v [ null ↦ "<nil>" | str s ↦ s | other n ↦ print n ]
  ]

  -- The call of the memory, and what it leaves in the envelope.
  unfoldable pub recall_into : Value → Envelope → World → Envelope × World
  recall_into payload e w =
      let (r, w1) = recall (safely_stringify payload) w in
      elim r [
        | err x ↦ (e, w1)
        | ok (text_, facts) ↦
            let m = put_all facts e.metadata in
            (
              record e {
                metadata = if text_ == "" then m else insert "manglekit.context" (str text_) m;
              },
              w1,
            )
      ]

  unfoldable pub recall_context : Value → Envelope → World → Envelope × World
  recall_context payload e w =
      let (needed, w1) = check_requirement e w in
      if not c.has_memory
      then (e, w)
      else if not c.has_engine
      then recall_into payload e w
      else elim needed [ ok true ↦ recall_into payload e w1 | _ ↦ (e, w1) ]

  -- The metadata that `injectContext` sets before it recalls.
  unfoldable pub loop_metadata : Params → Map Value → Map Value
  loop_metadata p m =
      let m1 : Map Value = elim p.feedback_history [
        | [] ↦ m
        | f ∷ fs ↦ insert "prev_feedback" (str (join_all (f ∷ fs))) m
      ] in
      let m2 =
        if p.last_feedback == ""
        then m1
        else insert "mangle_feedback" (str p.last_feedback)
            (insert "manglekit.feedback" (str p.last_feedback) m1) in
      elim p.memory_mode [
        | MemoryMode.off ↦ m2
        | _ ↦ elim p.current_history [
          | [] ↦ m2
          | h ∷ hs ↦ insert "manglekit_history" (str (marshal (h ∷ hs))) m2
        ]
      ]

  unfoldable pub inject_context : Envelope → Value → Params → World → Envelope × World
  inject_context e payload p w =
      let (e1, w1) =
        recall_context payload (record e { metadata = loop_metadata p e.metadata }) w in
      (record e1 { metadata = put_texts context_facts (put_texts p.metadata e1.metadata) }, w1)
