-- ===== src/Ooda/Run.antt =====
-- `Run` of x/ooda/frame.go: the five phases, and the commit to the memory after them. The frame's
-- time limit is part of the world.
use manglekit.Common.{Option, none, some, if◌then◌else◌}
use manglekit.Ooda.{Phase, orienting, deciding, acting, verifying, Frame, Parts}
use manglekit.Ooda.Phases.{observe, orient, decide, verify}
use manglekit.Ooda.Act.{Fault, other_error, act_with_retry}
use manglekit.Workflow.{Err}

pub data Stop : Type 0 where
  in_phase : Phase → Fault → Stop
  in_commit : Err → Stop

module _ (P : Parts) where
  open P use {World, Weight}

  unfoldable pub commit_frame : Frame Weight → World → Option Err × World
  commit_frame f w = if P.has_memory then P.commit f w else (none, w)

  unfoldable pub run : Frame Weight → World → Option Stop × Frame Weight × World
  run f w =
      let (e1, g1, w1) = orient P (observe P f) w in
      let (e2, g2, w2) = decide P g1 w1 in
      let (e3, g3, w3) = act_with_retry P g2 w2 in
      let (e4, g4, w4) = verify P g3 w3 in
      let (e5, w5) = commit_frame g4 w4 in
      elim e1 [
        | some e ↦ (some (in_phase orienting (other_error e)), g1, w1)
        | none ↦ elim e2 [
          | some e ↦ (some (in_phase deciding (other_error e)), g2, w2)
          | none ↦ elim e3 [
            | some e ↦ (some (in_phase acting e), g3, w3)
            | none ↦ elim e4 [
              | some e ↦ (some (in_phase verifying (other_error e)), g4, w4)
              | none ↦ elim e5 [ some e ↦ (some (in_commit e), g4, w5) | none ↦ (none, g4, w5) ]
            ]
          ]
        ]
      ]
