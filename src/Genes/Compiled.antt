-- ===== src/Genes/Compiled.antt =====
-- Which genes `Compile` takes.
use text.Mathlib.Text.{starts_with}
use manglekit.Common.{
  ◌≡◌, ◌≢◌, refl, not, String, Bool, true, false, ◌==◌, ◌||◌, ◌&&◌, eq_iff, str_ne, or_false,
  not-false, none, List, [], ◌∷◌, All, arith, Bool-cases, Option-cases, inl, inr, ◌⊎◌, ◌↔◌,
}
use manglekit.Genes.{Gene, Hash, valid_tier, is_hard_tier, verify}
use manglekit.Genes.Head.{Letters, lower, trim_space, tier_in_head}
use manglekit.Genes.Compile.{
  lines_from, has_part, is_line_consistent, are_lines_consistent, check_tier_consistency,
  is_accepted, compile_all, compile,
}

refused : (hard allow : Bool) → (hard && not allow) ≡ true → (hard ≡ true → allow ≡ true) → ⊥
refused true true z h = cc z
refused true false z h = cc (h refl)
refused false allow z h = cc z

allowed : (hard allow : Bool) → (hard && not allow) ≡ false → hard ≡ true → allow ≡ true
allowed true allow z h = not-false allow z
allowed false allow z h = absurd (cc h)

neither : (a b : Bool) → (not a && not b) ≡ not (a || b)
neither true b = refl
neither false b = refl

module _ (L : Letters) where
  -- A line that is no comment, and whose head gives a tier, gives the declared one.
  abbrev pub LineAgrees : String → String → Type 0
  LineAgrees declared untrimmed =
      (starts_with (trim_space L untrimmed) "%" ≡ false)
      → (trim_space L untrimmed ≢ "")
      → (tier_in_head L (trim_space L untrimmed) ≢ "")
      → tier_in_head L (trim_space L untrimmed) ≡ declared

  is_line_consistent_iff :
      (declared l : String) → (is_line_consistent L declared l ≡ true) ↔ LineAgrees declared l
  unfolding is_line_consistent
  is_line_consistent_iff declared l =
      let line = trim_space L l in
      let t = tier_in_head L line in
      (
        (λ h a b c. ground (arith, eq_iff line "", eq_iff t "", eq_iff t declared)),
        λ h. elim (Bool-cases (line == "" || starts_with line "%")) [
          | inl z ↦ rw z refl
          | inr z ↦
              let (filled, code_line) = or_false (line == "") (starts_with line "%") z in
              elim (Bool-cases (t == "")) [
                | inl y ↦ rw (z, y) refl
                | inr y ↦
                    let same =
                      (eq_iff t declared).1 (h code_line (str_ne line "" filled) (str_ne t "" y)) in
                    rw (z, y, same) refl
              ]
        ],
      )

  are_lines_consistent_iff :
      (declared : String) (ls : List String)
      → (are_lines_consistent L declared ls ≡ true) ↔ All (LineAgrees declared) ls
  unfolding are_lines_consistent
  are_lines_consistent_iff declared [] = (λ h. tt, λ h. refl)
  are_lines_consistent_iff declared (l ∷ ls) =
      let (to, back) = are_lines_consistent_iff declared ls in
      let (one, each) = is_line_consistent_iff declared l in
      elim (Bool-cases (is_line_consistent L declared l)) [
        | inl z ↦ rw (z, are_lines_consistent) ((λ h. (one z, to h)), λ (_, h). back h)
        | inr z ↦
            rw (z, are_lines_consistent) ((λ h. absurd (cc h)), λ (h, _). absurd (cc (z, each h)))
      ]

  module _ (H : Hash) where
    open H use {Digest}

    -- The gene is signed, its signature fits, its tier is one of the four and hard only if that is
    -- allowed, and each line of its rules that gives a tier gives this one, if there is a halt or a
    -- denial in them at all.
    abbrev pub IsAccepted : Bool → Gene Digest → Type 0
    IsAccepted allow g =
        (verify H g ≡ true)
        × (valid_tier g.tier ≡ true)
        × (is_hard_tier g.tier ≡ true → allow ≡ true)
        × (((has_part (lower L g.rules) "halt(" || has_part (lower L g.rules) "deny(") ≡ false)
            ⊎ All (LineAgrees g.tier) (lines_from "" g.rules))

    check_tier_consistency_iff :
        (g : Gene Digest)
        → (check_tier_consistency L H g ≡ true) ↔ (
            ((has_part (lower L g.rules) "halt(" || has_part (lower L g.rules) "deny(") ≡ false)
            ⊎ All (LineAgrees g.tier) (lines_from "" g.rules))
    unfolding check_tier_consistency
    check_tier_consistency_iff g =
        let halts = has_part (lower L g.rules) "halt(" in
        let denies = has_part (lower L g.rules) "deny(" in
        let (to, back) = are_lines_consistent_iff g.tier (lines_from "" g.rules) in
        elim (Bool-cases (halts || denies)) [
          | inl z ↦
              rw (neither halts denies, z)
                ((λ h. inr (to h)), λ h. elim h [ inl e ↦ absurd (cc e) | inr k ↦ back k ])
          | inr z ↦ rw (neither halts denies, z) ((λ h. inl refl), λ h. refl)
        ]

    is_accepted_iff :
        (allow : Bool) (g : Gene Digest) → (is_accepted L H allow g ≡ true) ↔ IsAccepted allow g
    unfolding is_accepted
    is_accepted_iff allow g =
        let (to, back) = check_tier_consistency_iff g in
        elim (Bool-cases (verify H g)) [
          | inr v ↦ rw v ((λ h. absurd (cc h)), λ (h, _, _, _). absurd (cc h))
          | inl v ↦ elim (Bool-cases (valid_tier g.tier)) [
            | inr t ↦ rw (v, t) ((λ h. absurd (cc h)), λ (_, h, _, _). absurd (cc h))
            | inl t ↦ elim (Bool-cases (is_hard_tier g.tier && not allow)) [
              | inl z ↦
                  rw (v, t, z)
                    (
                      (λ h. absurd (cc h)),
                      λ (_, _, h, _). absurd (refused (is_hard_tier g.tier) allow z h),
                    )
              | inr z ↦
                  rw (v, t, z)
                    (
                      (λ h. (refl, refl, allowed (is_hard_tier g.tier) allow z, to h)),
                      λ (_, _, _, h). back h,
                    )
            ]
          ]
        ]

    compile_all_iff :
        (allow : Bool) (gs : List (Gene Digest))
        → (compile_all L H allow gs ≢ none) ↔ All (IsAccepted allow) gs
    unfolding compile_all
    compile_all_iff allow [] = (λ h. tt, λ h e. absurd (cc e))
    compile_all_iff allow (g ∷ gs) =
        let (to, back) = compile_all_iff allow gs in
        let (one, each) = is_accepted_iff allow g in
        elim (Bool-cases (is_accepted L H allow g)) [
          | inr z ↦ rw z ((λ h. absurd (h refl)), λ (k, _). absurd (cc (z, each k)))
          | inl z ↦ elim (Option-cases (compile_all L H allow gs)) [
            | inl y ↦ rw (z, y, compile_all) ((λ h. absurd (h refl)), λ (_, k). absurd (back k y))
            | inr (t, y) ↦
                rw (z, y, compile_all) ((λ h. (one z, to (λ e. cc (y, e)))), λ h e. absurd (cc e))
          ]
        ]

    -- The compiler gives a policy exactly if there are genes and each of them is signed with a signature
    -- that fits, has one of the four tiers, a hard one only if that is allowed, and either contains
    -- neither "halt(" nor "deny(" or has no line in whose head `tier_in_head` finds another tier.
    pub compile_iff :
        (allow : Bool) (gs : List (Gene Digest))
        → (compile L H allow gs ≢ none) ↔ ((gs ≢ []) × All (IsAccepted allow) gs)
    unfolding compile
    compile_iff allow [] = (λ h. absurd (h refl), λ (h, _). absurd (h refl))
    compile_iff allow (g ∷ gs) =
        let (to, back) = compile_all_iff allow (g ∷ gs) in
        elim (Option-cases (compile_all L H allow (g ∷ gs))) [
          | inl y ↦ rw (y, compile) ((λ h. absurd (h refl)), λ (_, k). absurd (back k y))
          | inr (t, y) ↦
              rw (y, compile)
                ((λ h. ((λ e. absurd (cc e)), to (λ e. cc (y, e)))), λ h e. absurd (cc e))
        ]
