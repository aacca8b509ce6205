-- ===== src/Ooda/Phases.antt =====
-- `observe`, `Orient`, `decide` and `verify` of x/ooda/frame.go.
use Prim.Native.String.{◌++◌ as join}
use manglekit.Common.{
  Bool, true, false, not, ◌==◌, ◌&&◌, Option, none, some, List, [], ◌∷◌, ◌++◌, if◌then◌else◌,
}
use manglekit.Ooda.{
  observing, orienting, deciding, verifying, Atom, Decision, Audit, no_trail, of_decision, own,
  Frame, Parts,
}
use manglekit.SessionState.{AuditTrail}
use manglekit.Workflow.{Value, null, Err, ok, err}

abbrev pub is_null : Value → Bool
is_null null = true
is_null _ = false

module _ (P : Parts) where
  open P use {World, Weight}

  -- What a phase leaves: its error, the frame and the world.
  abbrev pub Phased : Type 0
  Phased = Option Err × Frame Weight × World

  abbrev pub more_context : List (Atom Weight) → Frame Weight → Frame Weight
  more_context atoms f = record f { context = f.context ++ atoms }

  unfoldable pub observe : Frame Weight → Frame Weight
  observe f =
      let g = record f { phase = observing } in
      if f.input == ""
      then g
      else more_context
          (record {
            subject = f.id;
            predicate = "raw_input";
            object = f.input;
            weight = P.full_weight;
          }
            ∷ [])
          g

  unfoldable pub orient_knowledge : Frame Weight → World → Phased
  orient_knowledge f w = elim P.recall_knowledge [
    | none ↦ (none, f, w)
    | some recall ↦
        let (found, w') =
          recall f.input 10 (if f.workflow_id == "" then "default" else f.workflow_id) w in
        elim found [ ok atoms ↦ (none, more_context atoms f, w') | err e ↦ (some e, f, w') ]
  ]

  -- The atoms of the transient store come without a weight.
  abbrev pub unweighted : List (Atom Weight) → List (Atom Weight)
  unweighted [] = []
  unweighted (a ∷ more) = record a { weight = P.zero_weight } ∷ unweighted more

  unfoldable pub orient_session : Frame Weight → World → Phased
  orient_session f w =
      let (found, w') = P.to_atoms f.session_id w in
      if P.has_transient && not (f.session_id == "")
      then elim found [
        | ok atoms ↦ (none, more_context (unweighted atoms) f, w')
        | err e ↦ (some e, f, w')
      ]
      else (none, f, w)

  unfoldable pub orient_memory : Frame Weight → World → Phased
  orient_memory f w =
      let (found, w') = P.recall f.input w in
      if P.has_memory
      then elim found [ ok atoms ↦ (none, more_context atoms f, w') | err e ↦ (some e, f, w') ]
      else (none, f, w)

  -- One step after another, up to an error.
  abbrev pub before : Phased → (Frame Weight → World → Phased) → Phased
  before (some e, f, w) next = (some e, f, w)
  before (none, f, w) next = next f w

  unfoldable pub orient : Frame Weight → World → Phased
  orient f w =
      before (before (orient_knowledge (record f { phase = orienting }) w) orient_session)
        orient_memory

  -- The trail that a frame has, when its decision is about to be another.
  abbrev pub kept : Option Decision → Audit → Audit
  kept none of_decision = no_trail
  kept (some d) of_decision = elim d.audit_trail [ none ↦ no_trail | some t ↦ own t ]
  kept d a = a

  abbrev pub trail_of : Option Decision → Frame Weight → Audit
  trail_of none f = kept f.decision f.audit_trail
  trail_of (some d) f = elim d.audit_trail [ none ↦ no_trail | some t ↦ of_decision ]

  unfoldable pub decide : Frame Weight → World → Phased
  decide f w =
      let g = record f { phase = deciding } in
      let (found, w') = P.evaluate g w in
      if P.has_brain
      then elim found [
        | err e ↦ (some e, g, w')
        | ok d ↦ (none, record g { decision = d; audit_trail = trail_of d g }, w')
      ]
      else (none, g, w)

  -- What is written to the session about an action and its result.
  unfoldable pub note_status : Frame Weight → World → World
  note_status f w = elim f.decision [
    | none ↦ w
    | some d ↦ elim d.action [
      | none ↦ w
      | some a ↦
          let fails = P.tells_failure (P.print f.action_result) in
          let w1 =
            P.put f.session_id (join "verify_status_" a.name)
              (record {
                subject = "verify";
                predicate = a.name;
                object = if fails then "failed" else "success";
                graph = "session";
              })
              w in
          if fails
          then P.put f.session_id "needs_retry"
              (record {
                subject = "workflow";
                predicate = "retry";
                object = "true";
                graph = "session";
              })
              w1
          else w1
    ]
  ]

  abbrev pub trail_or_none : Option AuditTrail → Audit
  trail_or_none none = no_trail
  trail_or_none (some t) = own t

  unfoldable pub verify : Frame Weight → World → Phased
  verify f w =
      let g = record f { phase = verifying } in
      let w1 =
        if (P.has_transient && not (g.session_id == "")) && not (is_null g.action_result)
        then note_status g w
        else w in
      let (found, w2) = P.verify_frame g w1 in
      if P.has_brain
      then elim found [
        | err e ↦ (some e, g, w2)
        | ok t ↦ (none, record g { audit_trail = trail_or_none t }, w2)
      ]
      else (none, g, w1)
