-- ===== src/Genes/Head.antt =====
-- `tierInHead` and `splitTopLevel` of x/genes/policy.go: the tier that the head of a rule gives. The
-- lower case of a letter and what is a space are Go's tables, a parameter; texts are taken by
-- characters, as the bytes of those that the code looks for stand in no other character.
use Prim.Native.Char.{Char, code}
use Prim.Native.String.{◌∷◌, [], ◌++◌}
use text.Mathlib.Text.{starts_with}
use mathlib.Core.List.{◌∷◌ as cons, [] as nil}
use manglekit.Common.{
  ℕ, zero, suc, ◌+◌, ◌-◌, ◌&&◌, String, Bool, ◌==◌, ◌||◌, Option, none, some, List, if◌then◌else◌,
  eqb,
}
use manglekit.Genes.{valid_tier}

pub record Letters : Type 0 where
  pub to_lower : Char → Char
  pub is_space : Char → Bool

-- `strings.Trim` by a test for characters
abbrev pub trim_left : (Char → Bool) → String → String
trim_left p [] = ""
trim_left p (c ∷ s) = let rest = trim_left p s in if p c then rest else c ∷ s

abbrev pub trim_right : (Char → Bool) → String → String
trim_right p [] = ""
trim_right p (c ∷ s) =
    let rest = trim_right p s in if p c then (if rest == "" then "" else c ∷ rest) else c ∷ rest

abbrev pub trim : (Char → Bool) → String → String
trim p s = trim_right p (trim_left p s)

abbrev pub is_quote : Char → Bool
is_quote c = eqb (code c) 34 || eqb (code c) 39

abbrev pub skip : ℕ → String → String
skip zero s = s
skip (suc n) [] = ""
skip (suc n) (c ∷ s) = skip n s

-- What stands before the first `:-`.
unfoldable pub before_body : String → String
before_body [] = ""
before_body (c ∷ s) = let rest = before_body s in if starts_with (c ∷ s) ":-" then "" else c ∷ rest

abbrev pub depth_after : Char → ℕ → ℕ
depth_after c depth =
    if eqb (code c) 40 then depth + 1 else if eqb (code c) 41 then depth - 1 else depth

-- The loop, from the depth and the text since `start` on.
unfoldable pub split_from : ℕ → String → String → List String
split_from depth part [] = if part == "" then nil else cons part nil
split_from depth part (c ∷ s) =
    let ends = eqb (code c) 41 && eqb depth 0 in
    let splits = eqb (code c) 44 && eqb depth 0 in
    let rest = split_from (depth_after c depth) (if splits then "" else part ++ (c ∷ "")) s in
    if ends then cons part nil else if splits then cons part rest else rest

unfoldable pub split_top_level : String → List String
split_top_level s = split_from 0 "" s

abbrev pub third : List String → Option String
third (cons a (cons b (cons c rest))) = some c
third _ = none

module _ (L : Letters) where
  open L use {to_lower, is_space}

  abbrev pub lower : String → String
  lower [] = ""
  lower (c ∷ s) = to_lower c ∷ lower s

  abbrev pub trim_space : String → String
  trim_space s = trim is_space s

  -- What stands behind the first `pred`, of `length` characters, in whatever case.
  unfoldable pub after_first : String → ℕ → String → Option String
  after_first pred length [] = none
  after_first pred length (c ∷ s) =
      let rest = after_first pred length s in
      if starts_with (lower (c ∷ s)) pred then some (skip length (c ∷ s)) else rest

  -- The tier of a call, the empty text if it has none.
  unfoldable pub tier_of_call : Option String → String
  tier_of_call none = ""
  tier_of_call (some after) = elim (third (split_top_level after)) [
    | none ↦ ""
    | some arg ↦ let t = trim is_quote (trim_space arg) in if valid_tier t then t else ""
  ]

  unfoldable pub tier_in_head : String → String
  tier_in_head line =
      let head = before_body line in
      let halt = tier_of_call (after_first "halt(" 5 head) in
      let deny = tier_of_call (after_first "deny(" 5 head) in if halt == "" then deny else halt
