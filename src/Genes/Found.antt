-- ===== src/Genes/Found.antt =====
-- Where `tierInHead` finds a call of `halt` or `deny`.
use Prim.Native.Char.{Char, code}
use Prim.Native.String.{◌∷◌, []}
use text.Mathlib.Text.{starts_with}
use manglekit.Common.{◌≤◌, ◌≡◌, refl, String, true, false, none, some, arith, inl, inr, ◌⊎◌, eqb}
use manglekit.Genes.Head.{Letters, lower, after_first}
use manglekit.Genes.Cuts.{
  every, both, before, starts_with-head, not_open, starts_with-before, not_open-not_halt,
}

module _ (L : Letters) where
  open L use {to_lower}

  -- What `strings.ToLower` leaves alone, and what it makes no parenthesis of.
  pub record Lowers : Type 0 where
    pub keeps : (c : Char) → ((97 ≤ code c) × (code c ≤ 122)) ⊎ (code c ≡ 40) → to_lower c ≡ c
    pub opens : (c : Char) → eqb (code c) 40 ≡ false → eqb (code (to_lower c)) 40 ≡ false

  module _ (lowers : Lowers) where
    lower-not_open : (s : String) → every not_open s ≡ true → every not_open (lower L s) ≡ true
    unfolding every
    lower-not_open [] h = refl
    lower-not_open (c ∷ s) h =
        let (p, ps) = both (not_open c) (every not_open s) h in
        let closed : eqb (code c) 40 ≡ false = ground arith in
        rw (lowers.opens c closed, lower-not_open s ps) refl

    after_first-closed : (s : String) → every not_open s ≡ true → after_first L "halt(" 5 s ≡ none
    unfolding every after_first
    after_first-closed [] h = refl
    after_first-closed (c ∷ s) h =
        let (p, ps) = both (not_open c) (every not_open s) h in
        rw (not_open-not_halt (lower L (c ∷ s)) (lower-not_open (c ∷ s) h))
          (after_first-closed s ps)

    small : (c : Char) → (97 ≤ code c) × (code c ≤ 122) → to_lower c ≡ c
    small c h = lowers.keeps c (inl h)

    -- Another small letter before a text starts no call of `halt`.
    after_first-other :
        (c : Char) (s : String)
        → to_lower c ≡ c
        → eqb (code c) 104 ≡ false
        → after_first L "halt(" 5 s ≡ none
        → after_first L "halt(" 5 (c ∷ s) ≡ none
    unfolding after_first
    after_first-other c s same h e = rw (same, starts_with-head c "h" (lower L s) "alt(" h) e

    pub after_first-deny :
        (s : String) → every not_open s ≡ true → after_first L "halt(" 5 (before "deny(" s) ≡ none
    after_first-deny s h =
        let one =
          after_first-other "(" s (lowers.keeps "(" (inr refl)) refl (after_first-closed s h) in
        let two = after_first-other "y" _ (small "y" (omega arith, omega arith)) refl one in
        let three = after_first-other "n" _ (small "n" (omega arith, omega arith)) refl two in
        let four = after_first-other "e" _ (small "e" (omega arith, omega arith)) refl three in
        after_first-other "d" _ (small "d" (omega arith, omega arith)) refl four

    lower-halt : (s : String) → lower L (before "halt(" s) ≡ before "halt(" (lower L s)
    lower-halt s =
        rw
          (
            small "h" (omega arith, omega arith),
            small "a" (omega arith, omega arith),
            small "l" (omega arith, omega arith),
            small "t" (omega arith, omega arith),
            lowers.keeps "(" (inr refl),
          )
          refl

    lower-deny : (s : String) → lower L (before "deny(" s) ≡ before "deny(" (lower L s)
    lower-deny s =
        rw
          (
            small "d" (omega arith, omega arith),
            small "e" (omega arith, omega arith),
            small "n" (omega arith, omega arith),
            small "y" (omega arith, omega arith),
            lowers.keeps "(" (inr refl),
          )
          refl

    pub halt-found : (s : String) → after_first L "halt(" 5 (before "halt(" s) ≡ some s
    unfolding after_first
    halt-found s =
        let starts : starts_with (lower L (before "halt(" s)) "halt(" ≡ true =
          rw (lower-halt s) (starts_with-before "halt(" (lower L s)) in
        rw starts refl

    pub deny-found : (s : String) → after_first L "deny(" 5 (before "deny(" s) ≡ some s
    unfolding after_first
    deny-found s =
        let starts : starts_with (lower L (before "deny(" s)) "deny(" ≡ true =
          rw (lower-deny s) (starts_with-before "deny(" (lower L s)) in
        rw starts refl
