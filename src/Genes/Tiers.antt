-- ===== src/Genes/Tiers.antt =====
-- What `tierInHead` gives for a call of `halt` or `deny` whose arguments are plain.
use Prim.Native.String.{◌∷◌, []}
use text.Mathlib.Text.{starts_with}
use manglekit.Common.{
  ◌≡◌, ◌≢◌, refl, sym, ◌∙◌, ap, String, true, false, Option, some, inl, inr, ◌⊎◌,
}
use manglekit.Genes.{valid_tier}
use manglekit.Genes.Head.{
  Letters, trim, trim_space, is_quote, before_body, after_first, tier_of_call, tier_in_head,
}
use manglekit.Genes.Cuts.{
  is_plain, every, before, starts_with-head, before_body-plain, split_top_level-call,
  before_body-cons, not_open, every-before, arguments, valid-ne_empty, first_tier, second_tier,
}
use manglekit.Genes.Found.{Lowers, after_first-deny, halt-found, deny-found}

module _ (L : Letters) where
  -- A line whose head is a call of `halt` or `deny` with three arguments, none of which has a
  -- parenthesis, a comma or a colon, the third being the tier `t` with quotes and spaces around it;
  -- behind the call stand plain characters, and then nothing or the body.
  pub record IsCall (line t : String) : Type 0 where
    pub pred : String
    pub a : String
    pub b : String
    pub c : String
    pub gap : String
    pub tail : String
    pub named : (pred ≡ "halt(") ⊎ (pred ≡ "deny(")
    pub shape : line ≡ before pred (arguments a b c (before gap tail))
    pub plain :
        (every is_plain a ≡ true)
        × (every is_plain b ≡ true)
        × (every is_plain c ≡ true)
        × (every is_plain gap ≡ true)
    pub ends : (tail ≡ "") ⊎ (starts_with tail ":-" ≡ true)
    pub tier : trim is_quote (trim_space L c) ≡ t
    pub valid : valid_tier t ≡ true

  before_body-tail :
      (tail : String) → (tail ≡ "") ⊎ (starts_with tail ":-" ≡ true) → before_body tail ≡ ""
  unfolding before_body
  before_body-tail [] h = refl
  before_body-tail (c ∷ s) (inl e) = absurd (cc e)
  before_body-tail (c ∷ s) (inr e) = rw e refl

  module _ (lowers : Lowers L) where
    tier_of_call-arguments :
        (a b c rest t : String)
        → every is_plain a ≡ true
        → every is_plain b ≡ true
        → every is_plain c ≡ true
        → trim is_quote (trim_space L c) ≡ t
        → valid_tier t ≡ true
        → tier_of_call L (some (arguments a b c rest)) ≡ t
    unfolding tier_of_call
    tier_of_call-arguments a b c rest t ha hb hc e v =
        rw (tier_of_call, split_top_level-call a b c rest ha hb hc, tier_of_call, e, v) refl

    before_body-arguments :
        (a b c gap tail : String)
        → every is_plain a ≡ true
        → every is_plain b ≡ true
        → every is_plain c ≡ true
        → every is_plain gap ≡ true
        → before_body tail ≡ ""
        → before_body (arguments a b c (before gap tail)) ≡ arguments a b c (before gap "")
    before_body-arguments a b c gap tail ha hb hc hg e =
        let r3 = before gap tail in
        let r2 = before c (")" ∷ r3) in
        let r1 = before b ("," ∷ r2) in
        rw
          (
            before_body-plain a ("," ∷ r1) ha,
            before_body-cons "," r1 refl,
            before_body-plain b ("," ∷ r2) hb,
            before_body-cons "," r2 refl,
            before_body-plain c (")" ∷ r3) hc,
            before_body-cons ")" r3 refl,
            before_body-plain gap tail hg,
            e,
          )
          refl

    arguments-not_open :
        (a b c gap : String)
        → every is_plain a ≡ true
        → every is_plain b ≡ true
        → every is_plain c ≡ true
        → every is_plain gap ≡ true
        → every not_open (arguments a b c (before gap "")) ≡ true
    unfolding every
    arguments-not_open a b c gap ha hb hc hg =
        let k3 = every-before gap "" hg refl in
        let k2 = every-before c (")" ∷ before gap "") hc k3 in
        let k1 = every-before b ("," ∷ before c (")" ∷ before gap "")) hb k2 in
        every-before a ("," ∷ before b ("," ∷ before c (")" ∷ before gap ""))) ha k1

    before_body-halt :
        (s : String) → before_body (before "halt(" s) ≡ before "halt(" (before_body s)
    before_body-halt s =
        before_body-cons "h" (before "alt(" s) refl
        ∙ ap (λ (u : String). "h" ∷ u) (before_body-cons "a" (before "lt(" s) refl)
        ∙ ap (λ (u : String). "h" ∷ "a" ∷ u) (before_body-cons "l" (before "t(" s) refl)
        ∙ ap (λ (u : String). "h" ∷ "a" ∷ "l" ∷ u) (before_body-cons "t" (before "(" s) refl)
        ∙ ap (λ (u : String). "h" ∷ "a" ∷ "l" ∷ "t" ∷ u) (before_body-cons "(" s refl)

    before_body-deny :
        (s : String) → before_body (before "deny(" s) ≡ before "deny(" (before_body s)
    before_body-deny s =
        before_body-cons "d" (before "eny(" s) refl
        ∙ ap (λ (u : String). "d" ∷ u) (before_body-cons "e" (before "ny(" s) refl)
        ∙ ap (λ (u : String). "d" ∷ "e" ∷ u) (before_body-cons "n" (before "y(" s) refl)
        ∙ ap (λ (u : String). "d" ∷ "e" ∷ "n" ∷ u) (before_body-cons "y" (before "(" s) refl)
        ∙ ap (λ (u : String). "d" ∷ "e" ∷ "n" ∷ "y" ∷ u) (before_body-cons "(" s refl)

    -- The tier of a call is the one that is read.
    pub tier_in_head-IsCall : (line t : String) → IsCall line t → tier_in_head L line ≡ t
    unfolding tier_in_head tier_of_call
    tier_in_head-IsCall line t h =
        let (ha, hb, hc, hg) = h.plain in
        let all = arguments h.a h.b h.c (before h.gap h.tail) in
        let args = arguments h.a h.b h.c (before h.gap "") in
        let cut =
          before_body-arguments h.a h.b h.c h.gap h.tail ha hb hc hg
            (before_body-tail h.tail h.ends) in
        let read = tier_of_call-arguments h.a h.b h.c (before h.gap "") t ha hb hc h.tier h.valid in
        let closed = arguments-not_open h.a h.b h.c h.gap ha hb hc hg in
        let whole = λ (p : String). before p all in
        elim h.named [
          | inl e ↦
              let body : before_body line ≡ before "halt(" args =
                ap before_body (h.shape ∙ ap whole e)
                ∙ before_body-halt all
                ∙ ap (λ (u : String). before "halt(" u) cut in
              let found =
                ap (λ (u : String). after_first L "halt(" 5 u) body ∙ halt-found L lowers args in
              first_tier _ _ t (ap (λ (o : Option String). tier_of_call L o) found ∙ read)
                (valid-ne_empty t h.valid)
          | inr e ↦
              let body : before_body line ≡ before "deny(" args =
                ap before_body (h.shape ∙ ap whole e)
                ∙ before_body-deny all
                ∙ ap (λ (u : String). before "deny(" u) cut in
              let missed =
                ap (λ (u : String). after_first L "halt(" 5 u) body
                ∙ after_first-deny L lowers args closed in
              let found =
                ap (λ (u : String). after_first L "deny(" 5 u) body ∙ deny-found L lowers args in
              second_tier _ _ t (ap (λ (o : Option String). tier_of_call L o) missed)
                (ap (λ (o : Option String). tier_of_call L o) found ∙ read)
        ]

    -- A call is no comment.
    pub IsCall-code_line :
        (line t : String) → IsCall line t → (starts_with line "%" ≡ false) × (line ≢ "")
    IsCall-code_line line t h =
        let all = arguments h.a h.b h.c (before h.gap h.tail) in
        elim h.named [
          | inl e ↦
              let same = h.shape ∙ ap (λ (p : String). before p all) e in
              (
                rw same (starts_with-head "h" "%" (before "alt(" all) "" refl),
                λ n. absurd (cc (sym same ∙ n)),
              )
          | inr e ↦
              let same = h.shape ∙ ap (λ (p : String). before p all) e in
              (
                rw same (starts_with-head "d" "%" (before "eny(" all) "" refl),
                λ n. absurd (cc (sym same ∙ n)),
              )
        ]
