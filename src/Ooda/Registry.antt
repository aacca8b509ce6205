-- ===== src/Ooda/Registry.antt =====
-- x/ooda/registry.go: the tools by name, and the dispatcher that stops safely at a name it does not
-- know. A tool is a function over the world; a nil one is registered as such.
use Prim.Native.String.{◌++◌ as join}
use manglekit.Common.{
  ◌≡◌, String, Bool, true, false, Option, none, some, List, [], ◌∷◌, Map, lookup, insert, remove,
  map, Option-cases, inl, inr,
}
use manglekit.Workflow.{Value, str, Err}

-- A result, and the error beside it.
pub data Failed : Type 0 where
  already_registered : String → Failed
  unknown_action : String → List String → Failed
  sovereign_violation : String → Failed
  safe_stop_failed : String → Err → Failed
  tool_failed : Err → Failed

module _ (World : Type 0) where
  abbrev pub Tool : Type 0
  Tool = Map Value → World → (String × Option Err) × World

  abbrev pub Registry : Type 0
  Registry = Map (Option Tool)

  unfoldable pub register : String → Option Tool → Registry → Option Failed × Registry
  register name tool r = elim (lookup name r) [
    | some t ↦ (some (already_registered name), r)
    | none ↦ (none, insert name tool r)
  ]

  unfoldable pub unregister : String → Registry → Registry
  unregister name r = remove name r

  unfoldable pub get : String → Registry → Option Tool
  get name r = elim (lookup name r) [ none ↦ none | some t ↦ t ]

  unfoldable pub has : String → Registry → Bool
  has name r = elim (lookup name r) [ none ↦ false | some t ↦ true ]

  unfoldable pub names : Registry → List String
  names r = map (λ (e : String × Option Tool). e.0) r

  abbrev pub call : Tool → Map Value → World → (String × Option Failed) × World
  call tool args w =
      let ((out, e), w') = tool args w in
      (elim e [ none ↦ (out, none) | some x ↦ (out, some (tool_failed x)) ], w')

  unfoldable pub execute : String → Map Value → Registry → World → (String × Option Failed) × World
  execute name args r w = elim (get name r) [
    | none ↦ (("", some (unknown_action name (names r))), w)
    | some tool ↦ call tool args w
  ]

  abbrev pub stopped : String → String × Option Err → String × Option Failed
  stopped name (out, none) = (out, some (sovereign_violation name))
  stopped name (out, some e) = ("", some (safe_stop_failed name e))

  -- `boxed` is the map of the arguments as a value; `safe_stop` is the variable SafeStop.
  unfoldable pub dispatch :
      (Map Value → Value)
      → Option Tool
      → String
      → Map Value
      → Registry
      → World
      → (String × Option Failed) × World
  dispatch boxed safe_stop name args r w = elim (get name r) [
    | some tool ↦ call tool args w
    | none ↦ elim safe_stop [
      | none ↦ (("", some (sovereign_violation name)), w)
      | some stop ↦
          let message =
            join "SOVEREIGN VIOLATION: action '"
              (join name "' not found in registry - capability mismatch") in
          let (answer, w') =
            stop
              (("reason", str "sovereign_violation")
                ∷ ("action", str name)
                ∷ ("args", boxed args)
                ∷ ("original_error", str message)
                ∷ [])
              w in
          (stopped name answer, w')
    ]
  ]

  stopped-ne_none : (name : String) (a : String × Option Err) → ((stopped name a).1 ≡ none) → ⊥
  stopped-ne_none name (out, none) e = cc e
  stopped-ne_none name (out, some x) e = cc e

  -- A name that is not registered is always an error, whatever SafeStop answers.
  pub dispatch-unknown :
      (boxed : Map Value → Value) (safe_stop : Option Tool) (name : String) (args : Map Value)
      (r : Registry) (w : World)
      → has name r ≡ false
      → ((dispatch boxed safe_stop name args r w).0.1 ≡ none)
      → ⊥
  unfolding dispatch get has
  dispatch-unknown boxed safe_stop name args r w h = elim (Option-cases (lookup name r)) [
    | inr (t, z) ↦ absurd (cc (rw (z, has) at h))
    | inl z ↦ elim (Option-cases safe_stop) [
      | inl y ↦ rw (z, y, get, dispatch) (λ e. cc e)
      | inr (stop, y) ↦ rw (z, y, get, dispatch) (stopped-ne_none name _)
    ]
  ]
