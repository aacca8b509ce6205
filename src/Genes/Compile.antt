-- ===== src/Genes/Compile.antt =====
-- `Compile` of x/genes/policy.go.
use Prim.Native.Char.{code}
use Prim.Native.String.{◌∷◌, [], ◌++◌}
use text.Mathlib.Text.{starts_with, find?}
use mathlib.Core.List.{◌∷◌ as cons, [] as nil}
use manglekit.Common.{
  String, Bool, true, false, not, ◌==◌, ◌||◌, ◌&&◌, Option, none, some, List, if◌then◌else◌, eqb,
}
use manglekit.Genes.{Gene, Hash, valid_tier, is_hard_tier, verify}
use manglekit.Genes.Head.{Letters, lower, trim_space, tier_in_head}

-- `strings.Split(s, "\n")`, of what follows `part`
unfoldable pub lines_from : String → String → List String
lines_from part [] = cons part nil
lines_from part (c ∷ s) =
    let ends = eqb (code c) 10 in
    let rest = lines_from (if ends then "" else part ++ (c ∷ "")) s in
    if ends then cons part rest else rest

-- `strings.Contains`
unfoldable pub has_part : String → String → Bool
has_part s t = elim (find? s t) [ none ↦ false | some n ↦ true ]

module _ (L : Letters) where
  -- Whether a line gives no tier but the declared one.
  unfoldable pub is_line_consistent : String → String → Bool
  is_line_consistent declared untrimmed =
      let line = trim_space L untrimmed in
      if line == "" || starts_with line "%"
      then true
      else not (not (tier_in_head L line == "") && not (tier_in_head L line == declared))

  unfoldable pub are_lines_consistent : String → List String → Bool
  are_lines_consistent declared nil = true
  are_lines_consistent declared (cons l ls) =
      let rest = are_lines_consistent declared ls in
      if is_line_consistent declared l then rest else false

  module _ (H : Hash) where
    open H use {Digest}

    unfoldable pub check_tier_consistency : Gene Digest → Bool
    check_tier_consistency g =
        if not (has_part (lower L g.rules) "halt(") && not (has_part (lower L g.rules) "deny(")
        then true
        else are_lines_consistent g.tier (lines_from "" g.rules)

    -- The checks of one gene, in their order.
    unfoldable pub is_accepted : Bool → Gene Digest → Bool
    is_accepted allow_hard_tiers g =
        if not (verify H g)
        then false
        else if not (valid_tier g.tier)
        then false
        else if is_hard_tier g.tier && not allow_hard_tiers
        then false
        else check_tier_consistency g

    abbrev pub gene_text : Gene Digest → String
    gene_text g =
        ("\n% gene: "
          ++ (g.name ++ (" | tier: " ++ (g.tier ++ (" | source: " ++ (g.source ++ "\n"))))))
        ++ (trim_space L g.rules ++ "\n")

    -- The texts of the genes; none if one is refused.
    unfoldable pub compile_all : Bool → List (Gene Digest) → Option String
    compile_all allow nil = some ""
    compile_all allow (cons g gs) =
        let rest = compile_all allow gs in
        if is_accepted allow g
        then elim rest [ none ↦ none | some t ↦ some (gene_text g ++ t) ]
        else none

    -- none is an error
    unfoldable pub compile : Bool → List (Gene Digest) → Option String
    compile allow nil = none
    compile allow (cons g gs) = elim (compile_all allow (cons g gs)) [
      | none ↦ none
      | some t ↦ some ("% ---- x/genes compiled policy ----\n" ++ t)
    ]
