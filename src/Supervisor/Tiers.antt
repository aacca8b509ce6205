-- ===== src/Supervisor/Tiers.antt =====
-- When a halt blocks.
use manglekit.Common.{
  ℕ, ◌≡◌, refl, ◌∙◌, ◌↔◌, inl, inr, String, Bool, true, false, Bool-cases, not, ◌&&◌, ◌||◌, ◌==◌,
  eq_iff, Option, none, some, List, [], ◌∷◌, arith, if◌then◌else◌, ltb, leb, ap,
}
use manglekit.SessionState.{RuleInference, AuditTrail}
use manglekit.Supervisor.{
  map_core_tier, tier_severity, most_severe, Decision, violation_tier, is_blocking,
}

-- A tier that only advises.
abbrev pub is_advisory : String → Bool
is_advisory t = t == "T2" || t == "T3"

-- Every rule that has a tier has one that only advises.
abbrev pub advises : List RuleInference → Bool
advises [] = true
advises (r ∷ rs) = (r.tier == "" || is_advisory r.tier) && advises rs

abbrev pub tiered : List RuleInference → Bool
tiered [] = false
tiered (r ∷ rs) = not (r.tier == "") || tiered rs

is_advisory-severity : (t : String) → is_advisory t ≡ leb 2 (tier_severity t)
unfolding tier_severity
is_advisory-severity t = elim (Bool-cases (t == "T2")) [
  | inl z ↦ rw ((eq_iff t "T2").0 z) refl
  | inr z ↦ elim (Bool-cases (t == "T3")) [
    | inl y ↦ rw ((eq_iff t "T3").0 y) refl
    | inr y ↦ elim (Bool-cases (t == "T0")) [
      | inl x ↦ rw ((eq_iff t "T0").0 x) refl
      | inr x ↦ elim (Bool-cases (t == "T1" || t == "")) [
        | inl q ↦ rw (z, y, x, q, tier_severity) refl
        | inr q ↦ rw (z, y, x, q, tier_severity) refl
      ]
    ]
  ]
]

and-swap : (p q : Bool) → (p && q) ≡ ((q && p) && true)
and-swap true true = refl
and-swap true false = refl
and-swap false true = refl
and-swap false false = refl

-- Where a more severe rule takes the place of the one before, only it decides.
step_down :
    (p q t : Bool) (m n : ℕ)
    → q ≡ leb 2 m
    → t ≡ leb 2 n
    → ltb m n ≡ true
    → (p && q) ≡ ((q && p) && t)
step_down p q t m n hq ht lt = ground arith

step_over :
    (p q t : Bool) (m n : ℕ)
    → q ≡ leb 2 m
    → t ≡ leb 2 n
    → ltb m n ≡ false
    → (p && t) ≡ ((q && p) && t)
step_over p q t m n hq ht ge = ground arith

-- From a tier found before, the loop ends at one that only advises exactly if that one and every
-- later one do.
most_severe-advisory :
    (rs : List RuleInference) (t : String)
    → is_advisory (most_severe rs t)
      ≡ (advises rs && (if t == "" then tiered rs else is_advisory t))
unfolding most_severe
most_severe-advisory [] t = elim (Bool-cases (t == "")) [
  | inl z ↦ rw ((eq_iff t "").0 z) refl
  | inr z ↦ rw z refl
]
most_severe-advisory (r ∷ rs) t =
    let a = is_advisory-severity r.tier in
    let b = is_advisory-severity t in
    elim (Bool-cases (r.tier == "")) [
      | inl z ↦ rw z (most_severe-advisory rs t)
      | inr z ↦ elim (Bool-cases (t == "")) [
        | inl y ↦
            rw (z, y)
              (most_severe-advisory rs r.tier ∙ rw z (and-swap (advises rs) (is_advisory r.tier)))
        | inr y ↦ elim (Bool-cases (ltb (tier_severity r.tier) (tier_severity t))) [
          | inl x ↦
              rw (z, y, x)
                (most_severe-advisory rs r.tier
                  ∙ rw z (
                      step_down (advises rs) (is_advisory r.tier) (is_advisory t)
                        (tier_severity r.tier) (tier_severity t) a b x))
          | inr x ↦
              rw (z, y, x)
                (most_severe-advisory rs t
                  ∙ rw y (
                      step_over (advises rs) (is_advisory r.tier) (is_advisory t)
                        (tier_severity r.tier) (tier_severity t) a b x))
        ]
      ]
    ]

is_blocking-map_core_tier : (s : String) → is_blocking (map_core_tier s) ≡ not (is_advisory s)
unfolding map_core_tier
is_blocking-map_core_tier s = elim (Bool-cases (s == "T2")) [
  | inl z ↦ rw ((eq_iff s "T2").0 z) refl
  | inr z ↦ elim (Bool-cases (s == "T3")) [
    | inl y ↦ rw ((eq_iff s "T3").0 y) refl
    | inr y ↦ elim (Bool-cases (s == "T0")) [
      | inl x ↦ rw ((eq_iff s "T0").0 x) refl
      | inr x ↦ elim (Bool-cases (s == "T1")) [
        | inl q ↦ rw (z, y, x, q, map_core_tier) refl
        | inr q ↦ rw (z, y, x, q, map_core_tier) refl
      ]
    ]
  ]
]

-- How a trail decides.
decided :
    (t : AuditTrail)
    → is_blocking (map_core_tier (most_severe t.matched_rules ""))
      ≡ not (advises t.matched_rules && tiered t.matched_rules)
decided t =
    is_blocking-map_core_tier (most_severe t.matched_rules "")
    ∙ ap (λ (b : Bool). not b) (most_severe-advisory t.matched_rules "")

both : {b p q : Bool} → b ≡ false → b ≡ not (p && q) → (q ≡ true) × (p ≡ true)
both h e = ground arith

-- A halt does not block exactly if it comes with a trail whose matched rules name a tier and name
-- only the tiers T2 and T3.
pub violation_tier-advisory :
    (d : Decision)
    → (is_blocking (violation_tier d) ≡ false) ↔ (
        (t : AuditTrail) × (d.audit_trail ≡ some t)
        × (tiered t.matched_rules ≡ true)
        × (advises t.matched_rules ≡ true))
unfolding violation_tier
violation_tier-advisory d = by_trail d.audit_trail refl
  where
    by_trail :
        (o : Option AuditTrail)
        → d.audit_trail ≡ o
        → (is_blocking (violation_tier d) ≡ false) ↔ (
            (t : AuditTrail) × (d.audit_trail ≡ some t)
            × (tiered t.matched_rules ≡ true)
            × (advises t.matched_rules ≡ true))
    by_trail none e =
        (λ h. absurd (cc (rw (e, violation_tier) at h)), λ (t, f, g, h). absurd (cc (e, f)))
    by_trail (some t) e = (
      λ h. let (q, p) = both (rw (e, violation_tier) at h) (decided t) in (t, e, q, p),
      λ (t', f, g, h). rw (f, violation_tier) (decided t' ∙ rw (g, h) refl),
    )
