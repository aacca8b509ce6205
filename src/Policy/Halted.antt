-- ===== src/Policy/Halted.antt =====
-- What a halt with a trail is made of.
use manglekit.Common.{◌≡◌, String, false, List, [], ◌⊎◌}
use manglekit.Explain.{Atom}
use manglekit.Policy.{Engine, AlignmentError}
use manglekit.Policy.Best.{IsFirstBest}
use manglekit.Policy.Gate.{
  Match, matches_with_tier, matches_without_tier, halt_with, halt_text, halt_trail,
}
use manglekit.SessionState.{AuditTrail}

-- The error names the first of the best matches, the trail all of them.
pub record IsHaltOf (action entity : String) (ms : List Match) (trail : AuditTrail)
    (e : AlignmentError) : Type 0 where
  pub best : Match
  pub first : IsFirstBest best ms
  pub message : e.message ≡ best.reason
  pub tier : e.tier ≡ best.tier
  pub matched_rule : e.matched_rule ≡ halt_text entity best
  pub action_name : e.action_name ≡ action
  pub every : trail ≡ halt_trail entity ms

module _ (E : Engine) where
  open E use {World, Constant}

  -- The matches of halts with a tier, or if there are none those of halts without one.
  abbrev pub AreMatches : String → List (Atom Constant) → World → List Match → Type 0
  AreMatches entity facts w ms =
      let (a, w1) = E.query_with_solutions facts (halt_with entity ", Reason, Tier") w in
      let (b, _) = E.query_with_solutions facts (halt_with entity ", Reason") w1 in
      (matches_with_tier "Reason" a.0 ≡ ms)
      ⊎ ((matches_with_tier "Reason" a.0 ≡ [])
          × (b.1 ≡ false)
          × (matches_without_tier "Reason" b.0 ≡ ms))
