-- ===== src/Policy/Assessed.antt =====
-- What `AssessPlan` promises its callers.
use manglekit.Common.{◌≡◌, refl, String, true, inl, inr, some, List, [], ◌↔◌, ◌⊎◌, Map}
use manglekit.Explain.{Atom}
use manglekit.Policy.{Engine}
use manglekit.Policy.Gate.{
  Verdict, passed, not_ready, input_error, query_error, halted, gate_facts, assess_internal,
}
use manglekit.Policy.Passed.{IsQuiet, evaluate_gate_with_trail-passed_iff}
use manglekit.Policy.Plan.{go_on, halt, decision_of, assess_plan}
use manglekit.SessionState.{Envelope}

-- Only what passes the gate goes on.
decision_of-passed :
    (print : Verdict → String) (v : Verdict)
    → (((decision_of print v).0.outcome ≡ go_on) ↔ (v ≡ passed))
      × (((decision_of print v).0.outcome ≡ halt) ⊎ ((decision_of print v).0.outcome ≡ go_on))
unfolding decision_of
decision_of-passed print passed = (((λ h. refl), λ h. refl), inr refl)
decision_of-passed print (not_ready e) = (((λ h. absurd (cc h)), λ h. absurd (cc h)), inl refl)
decision_of-passed print input_error = (((λ h. absurd (cc h)), λ h. absurd (cc h)), inl refl)
decision_of-passed print query_error = (((λ h. absurd (cc h)), λ h. absurd (cc h)), inl refl)
decision_of-passed print (halted trail e) = (((λ h. absurd (cc h)), λ h. absurd (cc h)), inl refl)

module _ (E : Engine) where
  open E use {World, Constant}

  -- A plan is let through exactly if the runtime is ready, the request could be turned into facts, and
  -- the runtime, asked with these facts for halts with a tier, halts without one and a halt by itself,
  -- answers the last two without an error and derives none of the three; otherwise it is halted.
  pub assess_plan-proceeds :
      (print : Verdict → String) (env : Envelope) (cache : Map (Atom Constant)) (w : World)
      → let (d, _) = (assess_plan E print env (cache, w)).0 in
        ((d.outcome ≡ go_on) ↔ (
          (E.is_ready w ≡ true)
          × ((facts : List (Atom Constant)) × ((gate_facts E "Req" env [] cache).0 ≡ some facts)
              × IsQuiet E "Req" facts w)))
        × ((d.outcome ≡ halt) ⊎ (d.outcome ≡ go_on))
  unfolding assess_plan assess_internal
  assess_plan-proceeds print env cache w =
      let ((to, back), either) = decision_of-passed print (assess_internal E "" env (cache, w)).0 in
      let (quiet, unquiet) = evaluate_gate_with_trail-passed_iff E "" "Req" env [] cache w in
      (((λ h. quiet (to h)), λ h. back (unquiet h)), either)
