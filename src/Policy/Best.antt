-- ===== src/Policy/Best.antt =====
-- Which match of a list the gate and the steering take.
use mathlib.Core.List.{append-nil, append_assoc}
use manglekit.Common.{
  ℕ, ◌≤◌, ◌<◌, ◌≡◌, refl, List, [], ◌∷◌, ◌++◌, arith, All, All-append, ltb, ltb→lt, ltb→le,
  Bool-cases, inl, inr,
}
use manglekit.Policy.Gate.{Match, tier_priority, better, best_of}

-- The first of those with the best tier: each before it has a worse tier, none after it a better one.
pub record IsFirstBest (best : Match) (ms : List Match) : Type 0 where
  pub before : List Match
  pub after : List Match
  pub parts : ms ≡ before ++ (best ∷ after)
  pub worse : All (λ (m : Match). tier_priority best.tier < tier_priority m.tier) before
  pub no_better : All (λ (m : Match). tier_priority best.tier ≤ tier_priority m.tier) after

-- The tier that is best so far may only improve.
worse_trans :
    (p q : ℕ) (ms : List Match)
    → q ≤ p
    → All (λ (m : Match). p < tier_priority m.tier) ms
    → All (λ (m : Match). q < tier_priority m.tier) ms
worse_trans p q [] h a = tt
worse_trans p q (m ∷ ms) h (x, a) = (omega arith, worse_trans p q ms h a)

le→lt :
    (p q : ℕ) (ms : List Match)
    → q < p
    → All (λ (m : Match). p ≤ tier_priority m.tier) ms
    → All (λ (m : Match). q < tier_priority m.tier) ms
le→lt p q [] h a = tt
le→lt p q (m ∷ ms) h (x, a) = (omega arith, le→lt p q ms h a)

-- From a best of what was seen, with what stood before and after it.
best_of-from :
    (best : Match) (before after ms : List Match)
    → All (λ (m : Match). tier_priority best.tier < tier_priority m.tier) before
    → All (λ (m : Match). tier_priority best.tier ≤ tier_priority m.tier) after
    → IsFirstBest (best_of best ms) (before ++ (best ∷ (after ++ ms)))
unfolding best_of better
best_of-from best before after [] w n = record {
  before = before;
  after = after;
  parts = rw append-nil refl;
  worse = w;
  no_better = n;
}
best_of-from best before after (m ∷ ms) w n =
    elim (Bool-cases (ltb (tier_priority m.tier) (tier_priority best.tier))) [
      | inl z ↦
          let earlier : best_of best (m ∷ ms) ≡ best_of m ms = rw (z, better) refl in
          let list : (before ++ (best ∷ after)) ++ (m ∷ ms)
              ≡ before ++ (best ∷ (after ++ (m ∷ ms))) =
            append_assoc before (best ∷ after) (m ∷ ms) in
          let lt = ltb→lt (tier_priority m.tier) (tier_priority best.tier) z in
          rw (earlier, ← list)
            (best_of-from m (before ++ (best ∷ after)) [] ms
              (All-append _ before (best ∷ after) (worse_trans _ _ before (omega arith) w)
                (lt, le→lt _ _ after lt n))
              tt)
      | inr z ↦
          let earlier : best_of best (m ∷ ms) ≡ best_of best ms = rw (z, better) refl in
          let list : (after ++ (m ∷ [])) ++ ms ≡ after ++ (m ∷ ms) =
            append_assoc after (m ∷ []) ms in
          let le = ltb→le (tier_priority m.tier) (tier_priority best.tier) z in
          rw (earlier, ← list)
            (best_of-from best before (after ++ (m ∷ [])) ms w
              (All-append _ after (m ∷ []) n (le, tt)))
    ]

pub best_of-IsFirstBest : (m : Match) (ms : List Match) → IsFirstBest (best_of m ms) (m ∷ ms)
best_of-IsFirstBest m ms = best_of-from m [] [] ms tt tt
