-- ===== src/Client/Step/Sound.antt =====
-- What a step leaves in the parameters, and what it returns.
use manglekit.Common.{
  Option, some, none, ℕ, ◌+◌, ◌≤◌, ◌≡◌, refl, inl, inr, ◌∙◌, ap, String, Bool, true, false,
  Bool-cases, ◌==◌, eq_iff, Option-cases, List, [], ◌∷◌, ◌++◌, arith, leb, length, length-append,
  All, All-append, lookup, insert, ◌||◌, if◌then◌else◌,
}
use manglekit.Workflow.{Value, null, str, other}
use manglekit.SessionState.{Envelope}
use manglekit.Client.{
  Error, Result, ok, err, Params, Client, Env, is_text, decision, default_max_retries,
}
use manglekit.Client.Similar.{Unicode, is_semantically_similar, thrashes}
use manglekit.Client.Step.{
  StepResult, find_alignment, handle_alignment, handle_execution_error, update_history,
  handle_retry_decision, handle_decision, steer, save_state, after_execute, execute_single_step,
  async_memorize, retry_after,
}
use manglekit.Client.Context.{World, get_meta}

-- No two feedbacks of a list are similar.
abbrev pub Dissimilar : Unicode → List String → Type 0
Dissimilar u [] = Unit
Dissimilar u (f ∷ fs) =
    All (λ (g : String). is_semantically_similar u f g ≡ false) fs × Dissimilar u fs

Dissimilar-append :
    (u : Unicode) (fs : List String) (hint : String)
    → thrashes u fs hint ≡ false
    → Dissimilar u fs
    → Dissimilar u (fs ++ (hint ∷ []))
unfolding thrashes
Dissimilar-append u [] hint h d = (tt, tt)
Dissimilar-append u (f ∷ fs) hint h d = elim (Bool-cases (is_semantically_similar u f hint)) [
  | inl z ↦ absurd (cc (rw (z, thrashes) at h))
  | inr z ↦ (
    All-append (λ (g : String). is_semantically_similar u f g ≡ false) fs (hint ∷ []) d.0 (z, tt),
    Dissimilar-append u fs hint (rw (z, thrashes) at h) d.1,
  )
]

-- The retries are within the limit, each feedback belongs to one of them, and no two are similar.
pub record IsWithin (u : Unicode) (n : ℕ) (feedbacks : List String) : Type 0 where
  pub retries : n ≤ default_max_retries
  pub fewer : length feedbacks ≤ n
  pub distinct : Dissimilar u feedbacks

abbrev pub InBounds : Unicode → Params → Type 0
InBounds u p = IsWithin u p.retry_count p.feedback_history

is_text-str : (s : String) (v : Value) → is_text s v ≡ true → v ≡ str s
is_text-str s null h = absurd (cc)
is_text-str s (str t) h = ground (arith, eq_iff t s)
is_text-str s (other n) h = absurd (cc)

-- A decision is one text only.
other_decision :
    (s t : String) (v : Value) → (s == t) ≡ false → is_text s v ≡ true → is_text t v ≡ false
other_decision s t v ne h = rw (is_text-str s v h) ne

true_ne_false : {b : Bool} → b ≡ true → b ≡ false → ⊥
true_ne_false h k = cc

proceed-ne_halt :
    (v : Value) → (is_text "PROCEED" v || is_text "" v) ≡ true → is_text "HALT" v ≡ false
proceed-ne_halt v h = elim (Bool-cases (is_text "PROCEED" v)) [
  | inl z ↦ other_decision "PROCEED" "HALT" v refl z
  | inr z ↦ other_decision "" "HALT" v refl (rw z at h)
]

-- A step that returned a result with no error decided to retry, and has counted a retry; or to route,
-- and has none counted; or neither, nor to halt.
abbrev pub Decided : Params → Envelope → Params → Type 0
Decided p r p' =
    (is_text "HALT" (decision r) ≡ false)
    × (is_text "RETRY" (decision r) ≡ true → p'.retry_count ≡ p.retry_count + 1)
    × (is_text "ROUTE" (decision r) ≡ true → p'.retry_count ≡ 0)

module _ (env : Env) (c : Client) where
  open env use {unicode, wait, new_id, execute}

  abbrev DecidedBy : Params → Result Envelope → Params → Type 0
  DecidedBy p (err e) p' = Unit
  DecidedBy p (ok r) p' = Decided p r p'

  abbrev pub Leaves : Params → StepResult env c → Type 0
  Leaves p out =
      InBounds unicode out.1 × DecidedBy p out.0 out.1 × (out.1.audit_records ≡ p.audit_records)

  handle_alignment-Leaves :
      (found : Option String) (e : Error) (payload : Value) (p : Params) (w : World env c)
      → InBounds unicode p
      → Leaves p (handle_alignment env c found e payload p w)
  unfolding handle_alignment lookup insert
  handle_alignment-Leaves (some m) e payload p w b =
      elim (Bool-cases (leb default_max_retries p.retry_count)) [
        | inl z ↦ rw (z, handle_alignment) (b, tt, refl)
        | inr z ↦
            let more : IsWithin unicode (p.retry_count + 1) p.feedback_history = record {
              retries = ground arith;
              fewer = ground (arith, b.fewer);
              distinct = b.distinct;
            } in
            elim (Option-cases (wait (p.retry_count + 1) w).0) [
              | inl y ↦
                  rw (z, y, handle_alignment) (more, (refl, λ h. refl, λ h. absurd (cc)), refl)
              | inr (x, y) ↦ rw (z, y, handle_alignment) (more, tt, refl)
            ]
      ]
  handle_alignment-Leaves none e payload p w b = (b, tt, refl)

  handle_retry_decision-Leaves :
      (name : String) (r : Envelope) (p : Params) (w : World env c)
      → InBounds unicode p
      → is_text "RETRY" (decision r) ≡ true
      → Leaves p (handle_retry_decision env c name r p w)
  unfolding handle_retry_decision retry_after
  handle_retry_decision-Leaves name r p w b d =
      let hint = get_meta env c "manglekit.feedback" r in
      let fs = p.feedback_history in
      elim (Bool-cases (leb default_max_retries p.retry_count)) [
        | inl z ↦ rw (z, handle_retry_decision) (b, tt, refl)
        | inr z ↦ elim (Bool-cases (thrashes unicode fs hint)) [
          | inl y ↦ rw (z, y, handle_retry_decision) (b, tt, refl)
          | inr y ↦
              let more : IsWithin unicode (p.retry_count + 1) (fs ++ (hint ∷ [])) = record {
                retries = ground arith;
                fewer = omega (arith, b.fewer, length-append fs (hint ∷ []));
                distinct = Dissimilar-append unicode fs hint y b.distinct;
              } in
              elim (Option-cases (wait (p.retry_count + 1) w).0) [
                | inl x ↦
                    rw (z, y, x, handle_retry_decision, retry_after)
                      (
                        more,
                        (
                          other_decision "RETRY" "HALT" (decision r) refl d,
                          λ h. refl,
                          λ h. absurd (cc (other_decision "RETRY" "ROUTE" (decision r) refl d)),
                        ),
                        refl,
                      )
                | inr (e, x) ↦ rw (z, y, x, handle_retry_decision, retry_after) (more, tt, refl)
              ]
        ]
      ]

  handle_decision-Leaves :
      (name : String) (r : Envelope) (payload : Value) (p : Params) (w : World env c)
      → InBounds unicode p
      → Leaves p (handle_decision env c name r payload p w)
  unfolding handle_decision
  handle_decision-Leaves name r payload p w b =
      let d = decision r in
      let w1 =
        if is_text "" d || is_text "PROCEED" d
        then async_memorize env c payload r.payload w
        else w in
      elim (Bool-cases (is_text "RETRY" d)) [
        | inl z ↦ rw (z, handle_decision) (handle_retry_decision-Leaves name r p w1 b z)
        | inr z ↦ elim (Bool-cases (is_text "ROUTE" d)) [
          | inl y ↦
              rw (z, y, handle_decision)
                (
                  record { retries = omega arith; fewer = omega arith; distinct = tt },
                  (
                    other_decision "ROUTE" "HALT" d refl y,
                    λ h. absurd (true_ne_false h z),
                    λ h. refl,
                  ),
                  refl,
                )
          | inr y ↦
              let undecided = (λ (h : is_text "RETRY" d ≡ true). absurd (true_ne_false h z)) in
              let unrouted = (λ (h : is_text "ROUTE" d ≡ true). absurd (true_ne_false h y)) in
              elim (Bool-cases (is_text "PROCEED" d || is_text "" d)) [
                | inl x ↦
                    rw (z, y, x, handle_decision)
                      (b, (proceed-ne_halt d x, undecided, unrouted), refl)
                | inr x ↦ elim (Bool-cases (is_text "HALT" d)) [
                  | inl q ↦ rw (z, y, x, q, handle_decision) (b, tt, refl)
                  | inr q ↦ rw (z, y, x, q, handle_decision) (b, (q, undecided, unrouted), refl)
                ]
              ]
        ]
      ]

  -- The fields that the history has no part in.
  abbrev Alike : Params → Params → Type 0
  Alike p p' =
      (p'.retry_count ≡ p.retry_count)
      × (p'.feedback_history ≡ p.feedback_history)
      × (p'.audit_records ≡ p.audit_records)

  update_history-Alike :
      (payload : Value) (r : Envelope) (p : Params) (w : World env c)
      → Alike p (update_history env c payload r p w).0
  unfolding update_history
  update_history-Alike payload r p w = ground arith

  Alike-InBounds : (p p' : Params) → Alike p p' → InBounds unicode p → InBounds unicode p'
  Alike-InBounds p p' (r, f, a) b = record {
    retries = rw r (b.retries);
    fewer = rw (r, f) (b.fewer);
    distinct = rw f (b.distinct);
  }

  Alike-Leaves :
      (p p' : Params) (out : StepResult env c) → Alike p p' → Leaves p' out → Leaves p out
  Alike-Leaves p p' (err e, q, w) (r, f, a) (b, d, same) = (b, tt, same ∙ a)
  Alike-Leaves p p' (ok x, q, w) (r, f, a) (b, (d, more, none_), same) =
      (b, (d, λ h. more h ∙ ap (λ (n : ℕ). n + 1) r, none_), same ∙ a)

  after_execute-Leaves :
      (name : String) (payload : Value) (r : Result Envelope) (p : Params) (w : World env c)
      → InBounds unicode p
      → Leaves p (after_execute env c name payload r p w)
  unfolding after_execute handle_execution_error
  after_execute-Leaves name payload (err e) p w b =
      handle_alignment-Leaves (find_alignment e) e payload p w b
  after_execute-Leaves name payload (ok result) p w b =
      let (r, w1) = steer env c result w in
      let p1 = record p { last_feedback = "" } in
      let (p2, w2) = update_history env c payload r p1 w1 in
      let alike = update_history-Alike payload r p1 w1 in
      let b2 = Alike-InBounds p p2 alike b in
      Alike-Leaves p p2 (handle_decision env c name r payload p2 (save_state env c r p2 w2)) alike
        (handle_decision-Leaves name r payload p2 (save_state env c r p2 w2) b2)

  -- If the retries are within the limit of three, no more feedbacks are kept than there were
  -- retries, and no two of them are similar, then this is so after a step, whatever it meets. If the
  -- step returned a result, it did not decide to halt; it counted one retry more if it decided to
  -- retry, and none if it decided to route. A step adds no audit record itself.
  pub execute_single_step-Leaves :
      (name : String) (payload : Value) (p : Params) (w : World env c)
      → InBounds unicode p
      → Leaves p (execute_single_step env c name payload p w)
  unfolding execute_single_step
  execute_single_step-Leaves name payload p w b = elim (Option-cases (lookup name c.registry)) [
    | inl z ↦ rw (z, execute_single_step) (b, tt, refl)
    | inr (t, z) ↦ rw (z, execute_single_step) (after_execute-Leaves name payload _ p _ b)
  ]
