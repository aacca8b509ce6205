-- ===== src/Ooda/Retried.antt =====
-- Retries, and what they undo.
use manglekit.Common.{
  ℤ, pos, negsuc, ℕ, zero, suc, ◌+◌, ◌≡◌, refl, true, false, Option, none, some, Bool-cases,
  Option-cases, inl, inr, ◌⊎◌, arith,
}
use manglekit.Ooda.{acting, Frame, Parts, Decision}
use manglekit.Ooda.Phases.{is_null}
use manglekit.Ooda.Act.{
  Fault, Done, result, fault, Attempt, ended, failed, is_panic, execute_with_dispatcher,
  execute_otherwise, execute_action, note_result, act, undo, pause, after_act, attempt_once,
  attempts_from, attempts_up_to, act_with_retry,
}
use manglekit.Workflow.{Value}

pub Done-cases : (x : Done) → ((v : Value) × (x ≡ result v)) ⊎ ((e : Fault) × (x ≡ fault e))
Done-cases (result v) = inl (v, refl)
Done-cases (fault e) = inr (e, refl)

pub Attempt-cases :
    {W S : Type 0} (a : Attempt W S)
    → ((e : Option Fault) × (g : Frame W) × (w : S) × (a ≡ ended e g w))
      ⊎ ((e : Fault) × (g : Frame W) × (w : S) × (a ≡ failed e g w))
Attempt-cases (ended e g w) = inl (e, g, w, refl)
Attempt-cases (failed e g w) = inr (e, g, w, refl)

module _ (P : Parts) where
  open P use {World, Weight}

  execute_action-result :
      (f : Frame Weight) (d : Decision) (w : World)
      → (execute_action P f d w).1.action_result ≡ f.action_result
  unfolding execute_action execute_with_dispatcher execute_otherwise
  execute_action-result f d w = ground arith

  note_result-IsPanic :
      (f : Frame Weight) (d : Decision) (v : Value) (w : World) (e : Fault)
      → (note_result P f d v w).0 ≡ some e
      → is_panic e ≡ true
  unfolding note_result
  note_result-IsPanic f d v w e h = ground arith

  -- An attempt that fails, other than by a panic, leaves the result as it was.
  act-result :
      (f : Frame Weight) (w : World) (e : Fault)
      → (act P f w).0 ≡ some e
      → is_panic e ≡ false
      → (act P f w).1.action_result ≡ f.action_result
  unfolding act note_result
  act-result f w e h k = elim (Option-cases f.decision) [
    | inl z ↦ absurd (cc (rw (z, act) at h))
    | inr (d, z) ↦
        let g = record f { phase = acting } in
        let (done, g1, w1) = execute_action P g d w in
        elim (Done-cases done) [
          | inr (x, y) ↦ rw (z, y, act) (execute_action-result g d w)
          | inl (v, y) ↦ absurd (
              cc (
                k,
                note_result-IsPanic (record g1 { action_result = v }) d v w1 e
                    (rw (z, y, act) at h),
              ))
        ]
  ]

  -- Whether an attempt that failed has left no result.
  abbrev pub LeavesNone : Attempt Weight World → Type 0
  LeavesNone (ended r g w) = Unit
  LeavesNone (failed e g w) = is_null g.action_result ≡ true

  -- What is left of an attempt that fails, other than by a panic.
  abbrev pub IsNull : Option Fault × Frame Weight × World → Type 0
  IsNull a = (e : Fault) → a.0 ≡ some e → is_panic e ≡ false → is_null a.1.action_result ≡ true

  after_act-LeavesNone :
      (a : Option Fault × Frame Weight × World) → IsNull a → LeavesNone (after_act P a)
  unfolding after_act
  after_act-LeavesNone (none, g, w) h = tt
  after_act-LeavesNone (some e, g, w) h = elim (Bool-cases (is_panic e)) [
    | inl x ↦ rw x tt
    | inr x ↦ rw x (h e refl x)
  ]

  attempt_once-LeavesNone :
      (n : ℕ) (f : Frame Weight) (w : World)
      → is_null f.action_result ≡ true
      → LeavesNone (attempt_once P n f w)
  unfolding attempt_once
  attempt_once-LeavesNone n f w h =
      let g = record f { retry_count = n } in
      let (stopped, w1) = pause P n w in
      elim (Option-cases stopped) [
        | inr (e, z) ↦ rw (z, attempt_once) tt
        | inl z ↦
            rw (z, attempt_once)
              (after_act-LeavesNone (act P g w1) (λ e y x. rw (act-result g w1 e y x) h))
      ]

  undo-null : (f : Frame Weight) (w : World) → is_null f.action_result ≡ true → undo P f w ≡ w
  unfolding undo
  undo-null f w h = elim (Bool-cases P.has_executor) [ inl z ↦ rw (z, h) refl | inr z ↦ rw z refl ]

-- The parts with another way to roll back.
abbrev pub with_rollback : (P : Parts) → (Frame P.Weight → Value → P.World → P.World) → Parts
with_rollback P r = record P { rollback = r }

module _ (P : Parts) (r : Frame P.Weight → Value → P.World → P.World) where
  open P use {World, Weight}

  act-with_rollback : (f : Frame Weight) (w : World) → act (with_rollback P r) f w ≡ act P f w
  unfolding act note_result execute_action execute_with_dispatcher execute_otherwise
  act-with_rollback f w = refl

  pause-with_rollback : (n : ℕ) (w : World) → pause (with_rollback P r) n w ≡ pause P n w
  unfolding pause
  pause-with_rollback zero w = refl
  pause-with_rollback (suc n) w = refl

  after_act-with_rollback :
      (a : Option Fault × Frame Weight × World)
      → IsNull P a
      → after_act (with_rollback P r) a ≡ after_act P a
  unfolding after_act
  after_act-with_rollback (none, g, w) h = refl
  after_act-with_rollback (some e, g, w) h = elim (Bool-cases (is_panic e)) [
    | inl x ↦ rw x refl
    | inr x ↦
        let left : is_null g.action_result ≡ true = h e refl x in
        rw (x, undo-null (with_rollback P r) g w left, undo-null P g w left) refl
  ]

  attempt_once-with_rollback :
      (n : ℕ) (f : Frame Weight) (w : World)
      → is_null f.action_result ≡ true
      → attempt_once (with_rollback P r) n f w ≡ attempt_once P n f w
  unfolding attempt_once
  attempt_once-with_rollback n f w h =
      let g = record f { retry_count = n } in
      let (stopped, w1) = pause P n w in
      elim (Option-cases stopped) [
        | inr (e, z) ↦ rw (attempt_once, pause-with_rollback n w, z, pause-with_rollback n w) refl
        | inl z ↦
            rw
              (
                attempt_once,
                pause-with_rollback n w,
                z,
                pause-with_rollback n w,
                act-with_rollback g w1,
              )
              (after_act-with_rollback (act P g w1) (λ e y x. rw (act-result P g w1 e y x) h))
      ]

  attempts_from-with_rollback :
      (left n : ℕ) (f : Frame Weight) (w : World)
      → is_null f.action_result ≡ true
      → attempts_from (with_rollback P r) left n f w ≡ attempts_from P left n f w
  unfolding attempts_from
  attempts_from-with_rollback zero n f w h =
      rw (attempts_from, attempt_once-with_rollback n f w h) refl
  attempts_from-with_rollback (suc left) n f w h =
      let kept = attempt_once-LeavesNone P n f w h in
      elim (Attempt-cases (attempt_once P n f w)) [
        | inl (e, g, w', z) ↦ rw (attempts_from, attempt_once-with_rollback n f w h, z) refl
        | inr (e, g, w', z) ↦
            rw (attempts_from, attempt_once-with_rollback n f w h, z)
              (attempts_from-with_rollback left (n + 1) g w' (rw z at kept))
      ]

  attempts_up_to-with_rollback :
      (last : ℤ) (f : Frame Weight) (w : World)
      → is_null f.action_result ≡ true
      → attempts_up_to (with_rollback P r) last f w ≡ attempts_up_to P last f w
  unfolding attempts_up_to
  attempts_up_to-with_rollback (pos n) f w h = attempts_from-with_rollback n 0 f w h
  attempts_up_to-with_rollback (negsuc n) f w h = refl

  -- Executions that start without a result never roll anything back: whatever the executor does to
  -- roll back, the outcome, the frame and the world are the same.
  pub act_with_retry-with_rollback :
      (f : Frame Weight) (w : World)
      → is_null f.action_result ≡ true
      → act_with_retry (with_rollback P r) f w ≡ act_with_retry P f w
  unfolding act_with_retry
  act_with_retry-with_rollback f w h = attempts_up_to-with_rollback f.max_retries f w h
