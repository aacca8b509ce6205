-- ===== src/Ooda/Located.antt =====
-- Where a run stops.
use manglekit.Common.{
  ℤ, pos, negsuc, ℕ, zero, suc, ◌+◌, ◌≡◌, refl, ◌∙◌, Bool-cases, Option-cases, Option, none, some,
  inl, inr, ◌⊎◌, arith, if◌then◌else◌, ◌==◌,
}
use manglekit.Ooda.{Phase, orienting, deciding, acting, verifying, Frame, Parts, Decision}
use manglekit.Ooda.Phases.{
  Phased, before, observe, orient, orient_knowledge, orient_session, orient_memory, decide, verify,
}
use manglekit.Ooda.Act.{
  Fault, Attempt, ended, failed, act, attempt_once, after_act, pause, attempts_from, attempts_up_to,
  act_with_retry, execute_action, execute_with_dispatcher, execute_otherwise, is_panic,
}
use manglekit.Ooda.Retried.{Done-cases, Attempt-cases}
use manglekit.Workflow.{Result-cases}
use manglekit.Ooda.Run.{Stop, in_phase, in_commit, commit_frame, run}

-- The phase that a stop names is the frame's, and a run that ends or fails to commit has verified.
abbrev pub IsLocated : Option Stop → Phase → Type 0
IsLocated (some (in_phase q e)) p = p ≡ q
IsLocated (some (in_commit e)) p = p ≡ verifying
IsLocated none p = p ≡ verifying

module _ (P : Parts) where
  open P use {World, Weight}

  decide-phase : (f : Frame Weight) (w : World) → (decide P f w).1.phase ≡ deciding
  unfolding decide
  decide-phase f w = ground arith

  verify-phase : (f : Frame Weight) (w : World) → (verify P f w).1.phase ≡ verifying
  unfolding verify
  verify-phase f w = ground arith

  knowledge-phase : (f : Frame Weight) (w : World) → (orient_knowledge P f w).1.phase ≡ f.phase
  unfolding orient_knowledge
  knowledge-phase f w = elim (Option-cases P.recall_knowledge) [
    | inl z ↦ rw (z, orient_knowledge) refl
    | inr (recall, z) ↦
        let found =
          (recall f.input 10 (if f.workflow_id == "" then "default" else f.workflow_id) w).0 in
        elim (Result-cases found) [
          | inl (atoms, y) ↦ rw (z, y, orient_knowledge) refl
          | inr (e, y) ↦ rw (z, y, orient_knowledge) refl
        ]
  ]

  session-phase : (f : Frame Weight) (w : World) → (orient_session P f w).1.phase ≡ f.phase
  unfolding orient_session
  session-phase f w = ground arith

  memory-phase : (f : Frame Weight) (w : World) → (orient_memory P f w).1.phase ≡ f.phase
  unfolding orient_memory
  memory-phase f w = ground arith

  before-phase :
      (a : Phased P) (next : Frame Weight → World → Phased P)
      → ((f : Frame Weight) (w : World) → (next f w).1.phase ≡ f.phase)
      → (before P a next).1.phase ≡ a.1.phase
  before-phase (some e, f, w) next h = refl
  before-phase (none, f, w) next h = h f w

  orient-phase : (f : Frame Weight) (w : World) → (orient P f w).1.phase ≡ orienting
  unfolding orient
  orient-phase f w =
      before-phase
        (before P (orient_knowledge P (record f { phase = orienting }) w) (orient_session P))
        (orient_memory P) memory-phase
      ∙ (before-phase (orient_knowledge P (record f { phase = orienting }) w) (orient_session P)
            session-phase
          ∙ knowledge-phase (record f { phase = orienting }) w)

  execute_action-phase :
      (f : Frame Weight) (d : Decision) (w : World) → (execute_action P f d w).1.phase ≡ f.phase
  unfolding execute_action execute_with_dispatcher execute_otherwise
  execute_action-phase f d w = ground arith

  act-phase : (f : Frame Weight) (w : World) → (act P f w).1.phase ≡ acting
  unfolding act
  act-phase f w = elim (Option-cases f.decision) [
    | inl z ↦ rw (z, act) refl
    | inr (d, z) ↦
        let g = record f { phase = acting } in
        elim (Done-cases (execute_action P g d w).0) [
          | inr (x, y) ↦ rw (z, y, act) (execute_action-phase g d w)
          | inl (v, y) ↦ rw (z, y, act) (execute_action-phase g d w)
        ]
  ]

  abbrev frame_of : Attempt Weight World → Frame Weight
  frame_of (ended r g w) = g
  frame_of (failed e g w) = g

  after_act-frame : (a : Option Fault × Frame Weight × World) → frame_of (after_act P a) ≡ a.1
  unfolding after_act
  after_act-frame (none, g, w) = refl
  after_act-frame (some e, g, w) = elim (Bool-cases (is_panic e)) [
    | inl x ↦ rw x refl
    | inr x ↦ rw x refl
  ]

  acted-phase : (g : Frame Weight) (w : World) → (frame_of (after_act P (act P g w))).phase ≡ acting
  acted-phase g w = rw (after_act-frame (act P g w)) (act-phase g w)

  attempt_once-phase :
      (n : ℕ) (f : Frame Weight) (w : World)
      → (n ≡ 0) ⊎ (f.phase ≡ acting)
      → (frame_of (attempt_once P n f w)).phase ≡ acting
  unfolding attempt_once pause
  attempt_once-phase zero f w h = acted-phase (record f { retry_count = 0 }) w
  attempt_once-phase (suc n) f w (inl e) = absurd (omega arith)
  attempt_once-phase (suc n) f w (inr e) = elim (Option-cases (pause P (suc n) w).0) [
    | inr (x, z) ↦ rw (z, attempt_once) e
    | inl z ↦
        rw (z, attempt_once) (acted-phase (record f { retry_count = suc n }) (pause P (suc n) w).1)
  ]

  attempts_from-phase :
      (left n : ℕ) (f : Frame Weight) (w : World)
      → (n ≡ 0) ⊎ (f.phase ≡ acting)
      → (attempts_from P left n f w).1.phase ≡ acting
  unfolding attempts_from
  attempts_from-phase zero n f w h =
      let same = attempt_once-phase n f w h in
      elim (Attempt-cases (attempt_once P n f w)) [
        | inl (e, g, w', z) ↦ rw (z, attempts_from) (rw z at same)
        | inr (e, g, w', z) ↦ rw (z, attempts_from) (rw z at same)
      ]
  attempts_from-phase (suc left) n f w h =
      let same = attempt_once-phase n f w h in
      elim (Attempt-cases (attempt_once P n f w)) [
        | inl (e, g, w', z) ↦ rw (z, attempts_from) (rw z at same)
        | inr (e, g, w', z) ↦
            rw (z, attempts_from) (attempts_from-phase left (n + 1) g w' (inr (rw z at same)))
      ]

  attempts_up_to-phase :
      (last : ℤ) (f : Frame Weight) (w : World) (e : Fault)
      → (attempts_up_to P last f w).0 ≡ some e
      → (attempts_up_to P last f w).1.phase ≡ acting
  unfolding attempts_up_to
  attempts_up_to-phase (pos n) f w e h = attempts_from-phase n 0 f w (inl refl)
  attempts_up_to-phase (negsuc n) f w e h = absurd (cc h)

  acted_all-phase :
      (f : Frame Weight) (w : World) (e : Fault)
      → (act_with_retry P f w).0 ≡ some e
      → (act_with_retry P f w).1.phase ≡ acting
  unfolding act_with_retry
  acted_all-phase f w e h = attempts_up_to-phase f.max_retries f w e h

  -- A run that stops in a phase leaves the frame in this phase, and a run that does not stop, or whose
  -- commit to the memory fails, leaves it in the last phase, verify.
  pub run-IsLocated :
      (f : Frame Weight) (w : World) → let (stop, g, _) = run P f w in IsLocated stop g.phase
  unfolding run
  run-IsLocated f w =
      let (e1, g1, w1) = orient P (observe P f) w in
      let (e2, g2, w2) = decide P g1 w1 in
      let (e3, g3, w3) = act_with_retry P g2 w2 in
      let (e4, g4, w4) = verify P g3 w3 in
      let last : g4.phase ≡ verifying = verify-phase g3 w3 in
      elim (Option-cases e1) [
        | inr (e, z) ↦ rw (z, run) (orient-phase (observe P f) w)
        | inl z1 ↦ elim (Option-cases e2) [
          | inr (e, z) ↦ rw (z1, z, run) (decide-phase g1 w1)
          | inl z2 ↦ elim (Option-cases e3) [
            | inr (e, z) ↦ rw (z1, z2, z, run) (acted_all-phase g2 w2 e z)
            | inl z3 ↦ elim (Option-cases e4) [
              | inr (e, z) ↦ rw (z1, z2, z3, z, run) last
              | inl z4 ↦ elim (Option-cases (commit_frame P g4 w4).0) [
                | inr (e, z) ↦ rw (z1, z2, z3, z4, z, run) last
                | inl z ↦ rw (z1, z2, z3, z4, z, run) last
              ]
            ]
          ]
        ]
      ]
