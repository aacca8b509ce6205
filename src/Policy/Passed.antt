-- ===== src/Policy/Passed.antt =====
-- When the gate passes, and what a halt is made of.
use manglekit.Common.{
  ◌≡◌, refl, String, true, false, none, some, List, [], ◌∷◌, Map, lookup, All, arith, Bool-cases,
  Option-cases, List-cases, inl, inr, ◌↔◌, some_eq,
}
use manglekit.Explain.{Atom}
use manglekit.Policy.{Engine}
use manglekit.Policy.Gate.{
  matches_with_tier, matches_without_tier, halt_with, passed, gate_facts, resolve, check_deny,
  check_halt2, check_halt3, evaluate_gate_with_trail,
}
use manglekit.SessionState.{Envelope}

-- No solution binds the name.
abbrev pub NoneBinds : String → List (Map String) → Type 0
NoneBinds name = All (λ (s : Map String). lookup name s ≡ none)

matches_with_tier-nil :
    (name : String) (ss : List (Map String)) → (matches_with_tier name ss ≡ []) ↔ NoneBinds name ss
unfolding matches_with_tier
matches_with_tier-nil name [] = (λ _. tt, λ _. refl)
matches_with_tier-nil name (s ∷ ss) =
    let (to, back) = matches_with_tier-nil name ss in
    elim (Option-cases (lookup name s)) [
      | inl z ↦ rw (z, matches_with_tier) ((λ h. (refl, to h)), λ (_, h). back h)
      | inr (r, z) ↦ rw (z, matches_with_tier) ((λ h. absurd (cc h)), λ (h, _). absurd (cc h))
    ]

matches_without_tier-nil :
    (name : String) (ss : List (Map String))
    → (matches_without_tier name ss ≡ []) ↔ NoneBinds name ss
unfolding matches_without_tier
matches_without_tier-nil name [] = (λ _. tt, λ _. refl)
matches_without_tier-nil name (s ∷ ss) =
    let (to, back) = matches_without_tier-nil name ss in
    elim (Option-cases (lookup name s)) [
      | inl z ↦ rw (z, matches_without_tier) ((λ h. (refl, to h)), λ (_, h). back h)
      | inr (r, z) ↦ rw (z, matches_without_tier) ((λ h. absurd (cc h)), λ (h, _). absurd (cc h))
    ]

module _ (E : Engine) where
  open E use {World, Constant}

  -- The three queries, one after the other: no reason with a tier, no error and no reason without
  -- one, and no halt of the entity by itself.
  abbrev pub IsQuiet : String → List (Atom Constant) → World → Type 0
  IsQuiet entity facts w =
      let (a, w1) = E.query_with_solutions facts (halt_with entity ", Reason, Tier") w in
      let (b, w2) = E.query_with_solutions facts (halt_with entity ", Reason") w1 in
      NoneBinds "Reason" a.0
      × (b.1 ≡ false)
      × NoneBinds "Reason" b.0
      × ((E.execute_query facts (halt_with entity "") w2).0 ≡ some false)

  check_deny-passed :
      (entity action : String) (facts : List (Atom Constant)) (w : World)
      → ((check_deny E entity action facts w).0 ≡ passed)
        ↔ ((E.execute_query facts (halt_with entity "") w).0 ≡ some false)
  unfolding check_deny
  check_deny-passed entity action facts w = (λ h. ground arith, λ h. ground arith)

  check_halt2-passed :
      (entity action : String) (facts : List (Atom Constant)) (w : World)
      → ((check_halt2 E entity action facts w).0 ≡ passed) ↔ (
          let (b, w2) = E.query_with_solutions facts (halt_with entity ", Reason") w in
          (b.1 ≡ false)
          × NoneBinds "Reason" b.0
          × ((E.execute_query facts (halt_with entity "") w2).0 ≡ some false))
  unfolding check_halt2 resolve
  check_halt2-passed entity action facts w =
      let (b, w2) = E.query_with_solutions facts (halt_with entity ", Reason") w in
      let (to, back) = matches_without_tier-nil "Reason" b.0 in
      elim (Bool-cases b.1) [
        | inl z ↦ rw (z, check_halt2) ((λ h. absurd (cc h)), λ (h, _, _). absurd (cc h))
        | inr z ↦ elim (List-cases (matches_without_tier "Reason" b.0)) [
          | inl y ↦
              let (dto, dback) = check_deny-passed entity action facts w2 in
              rw (z, y, check_halt2) ((λ h. (refl, to y, dto h)), λ (_, _, h). dback h)
          | inr (m, ms, y) ↦
              rw (z, y, check_halt2) ((λ h. absurd (cc h)), λ (_, h, _). absurd (cc (back h, y)))
        ]
      ]

  check_halt3-passed :
      (entity action : String) (facts : List (Atom Constant)) (w : World)
      → ((check_halt3 E entity action facts w).0 ≡ passed) ↔ IsQuiet entity facts w
  unfolding check_halt3 resolve
  check_halt3-passed entity action facts w =
      let (a, w1) = E.query_with_solutions facts (halt_with entity ", Reason, Tier") w in
      let (to, back) = matches_with_tier-nil "Reason" a.0 in
      let (next, previous) = check_halt2-passed entity action facts w1 in
      elim (List-cases (matches_with_tier "Reason" a.0)) [
        | inl y ↦
            rw (y, check_halt3)
              ((λ h. let (b, c, d) = next h in (to y, b, c, d)), λ (_, b, c, d). previous (b, c, d))
        | inr (m, ms, y) ↦
            rw (y, check_halt3) ((λ h. absurd (cc h)), λ (h, _, _, _). absurd (cc (back h, y)))
      ]

  -- The gate passes exactly if the runtime is ready, the request could be turned into facts, and the
  -- runtime, asked with these facts for halts with a tier, halts without one and a halt by itself,
  -- answers the last two without an error and derives none of the three.
  pub evaluate_gate_with_trail-passed_iff :
      (action entity : String) (env : Envelope) (extra : List (Atom Constant))
      (cache : Map (Atom Constant)) (w : World)
      → ((evaluate_gate_with_trail E action entity env extra (cache, w)).0 ≡ passed) ↔ (
          (E.is_ready w ≡ true)
          × ((facts : List (Atom Constant)) × ((gate_facts E entity env extra cache).0 ≡ some facts)
              × IsQuiet entity facts w))
  unfolding evaluate_gate_with_trail
  evaluate_gate_with_trail-passed_iff action entity env extra cache w =
      elim (Bool-cases (E.is_ready w)) [
        | inr z ↦ rw (z, evaluate_gate_with_trail) ((λ h. absurd (cc h)), λ (h, _). absurd (cc h))
        | inl z ↦ elim (Option-cases (gate_facts E entity env extra cache).0) [
          | inl y ↦
              rw (z, y, evaluate_gate_with_trail)
                ((λ h. absurd (cc h)), λ (_, (_, h, _)). absurd (cc h))
          | inr (facts, y) ↦
              let (to, back) = check_halt3-passed entity action facts w in
              rw (z, y, evaluate_gate_with_trail)
                (
                  (λ h. (refl, (facts, refl, to h))),
                  λ (_, (given, same, quiet)). back (rw (some_eq same) quiet),
                )
        ]
      ]
