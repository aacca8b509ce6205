-- ===== src/Genes/Own.antt =====
-- What a compiled gene may halt or deny with.
use mathlib.Core.Path.{subst}
use manglekit.Common.{
  ◌≡◌, ◌≢◌, sym, ◌∙◌, String, Bool, true, false, ◌==◌, ◌||◌, none, List, [], ◌∷◌, ◌++◌, All,
  Bool-cases, inl, inr, ◌⊎◌,
}
use manglekit.Genes.{Gene, Hash, valid_tier, is_hard_tier, verify}
use manglekit.Genes.Cuts.{valid-ne_empty}
use manglekit.Genes.Head.{Letters, lower, trim_space, tier_in_head}
use manglekit.Genes.Found.{Lowers}
use manglekit.Genes.Tiers.{IsCall, tier_in_head-IsCall, IsCall-code_line}
use manglekit.Genes.Compile.{lines_from, has_part, compile}
use manglekit.Genes.Compiled.{LineAgrees, IsAccepted, compile_iff}

All-middle {ℓ κ} :
    {A : Type ℓ} (P : A → Type κ) (xs ys : List A) (y : A) → All P (xs ++ (y ∷ ys)) → P y
All-middle P [] ys y h = h.0
All-middle P (x ∷ xs) ys y h = All-middle P xs ys y h.1

module _ (L : Letters) (lowers : Lowers L) where
  LineAgrees-IsCall :
      (declared l t : String) → LineAgrees L declared l → IsCall L (trim_space L l) t → t ≡ declared
  LineAgrees-IsCall declared l t agrees call =
      let line = trim_space L l in
      let (code_line, filled) = IsCall-code_line L lowers line t call in
      let read = tier_in_head-IsCall L lowers line t call in
      let given : tier_in_head L line ≢ "" = λ e.
        let empty : ("" == "") ≡ false =
          subst (λ (u : String). (u == "") ≡ false) (sym read ∙ e) (valid-ne_empty t call.valid) in
        absurd (cc empty) in
      sym read ∙ agrees code_line filled given

  module _ (H : Hash) where
    open H use {Digest}

    -- If the compiler gives a policy, and a line of the rules of one of its genes has as its head a
    -- call of `halt` or `deny` whose arguments have no parenthesis, comma or colon, and whose third
    -- is a tier in quotes: then that gene is signed with a signature that fits and has one of the
    -- four tiers, the tier of the call is the gene's own, and it is a hard one only if hard tiers are
    -- allowed. That "halt(" or "deny(" stands in the rules is a premise, and `strings.ToLower` leaves
    -- small letters and parentheses alone and makes no other character a parenthesis.
    pub compile-own_tier :
        (allow : Bool) (xs ys : List (Gene Digest)) (g : Gene Digest) (ls ms : List String)
        (l t : String)
        → compile L H allow (xs ++ (g ∷ ys)) ≢ none
        → (has_part (lower L g.rules) "halt(" || has_part (lower L g.rules) "deny(") ≡ true
        → lines_from "" g.rules ≡ ls ++ (l ∷ ms)
        → IsCall L (trim_space L l) t
        → (verify H g ≡ true)
          × (valid_tier g.tier ≡ true)
          × (t ≡ g.tier)
          × ((is_hard_tier t ≡ false) ⊎ (allow ≡ true))
    compile-own_tier allow xs ys g ls ms l t given speaks lines call =
        let accepted = ((compile_iff L H allow (xs ++ (g ∷ ys))).0 given).1 in
        let (signed, valid, hard, agree) = All-middle (IsAccepted L H allow) xs ys g accepted in
        let own : t ≡ g.tier = elim agree [
          | inl silent ↦ absurd (cc (silent, speaks))
          | inr all ↦
              LineAgrees-IsCall g.tier l t
                (All-middle (LineAgrees L g.tier) ls ms l
                  (subst (All (LineAgrees L g.tier)) lines all))
                call
        ] in
        (
          signed,
          valid,
          own,
          elim (Bool-cases (is_hard_tier t)) [ inr z ↦ inl z | inl z ↦ inr (hard (rw own at z)) ],
        )
