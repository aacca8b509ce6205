-- ===== src/Genes/Cuts.antt =====
-- How `tierInHead` and `splitTopLevel` cut a text of plain characters.
use Prim.Native.Char.{Char, code}
use Prim.Native.String.{◌∷◌, [], ◌++◌}
use text.Mathlib.Text.{starts_with}
use text.Mathlib.TextEquality.{starts_with_iff}
use text.Mathlib.TextPositions.{starts_with-append}
use text.Mathlib.TextLemmas.{append_assoc, append-nil, nil-append, cons-append, head-eq_of_cons-eq}
use mathlib.Core.Path.{subst}
use mathlib.Core.List.{◌∷◌ as cons, [] as nil}
use manglekit.Common.{
  ◌≡◌, refl, sym, ◌∙◌, ap, not, String, Bool, true, false, ◌==◌, ◌||◌, ◌&&◌, arith, Bool-cases, inl,
  inr, eqb, eq_iff, if◌then◌else◌,
}
use manglekit.Genes.{valid_tier}
use manglekit.Genes.Head.{before_body, split_from, split_top_level}

-- A character of an argument: no parenthesis, comma or colon.
abbrev pub is_plain : Char → Bool
is_plain c = not ((eqb (code c) 40 || eqb (code c) 41) || (eqb (code c) 44 || eqb (code c) 58))

unfoldable pub every : (Char → Bool) → String → Bool
every p [] = true
every p (c ∷ s) = p c && every p s

pub both : (a b : Bool) → (a && b) ≡ true → (a ≡ true) × (b ≡ true)
both true b h = (refl, h)
both false b h = absurd (cc h)

-- One text before another.
abbrev pub before : String → String → String
before [] t = t
before (c ∷ s) t = c ∷ before s t

-- A text whose first character is another one does not start with this one.
pub starts_with-head :
    (c d : Char) (s t : String)
    → eqb (code c) (code d) ≡ false
    → starts_with (c ∷ s) (d ∷ t) ≡ false
starts_with-head c d s t h = elim (Bool-cases (starts_with (c ∷ s) (d ∷ t))) [
  | inr z ↦ z
  | inl z ↦
      let (r, e) = (starts_with_iff (c ∷ s) (d ∷ t)).0 z in
      let same : d ≡ c = head-eq_of_cons-eq (sym (cons-append d t r) ∙ e) in
      let differs : eqb (code d) (code d) ≡ false = rw (sym same) at h in absurd (ground arith)
]

pub is_plain-facts :
    (c : Char)
    → is_plain c ≡ true
    → (eqb (code c) 40 ≡ false)
      × (eqb (code c) 41 ≡ false)
      × (eqb (code c) 44 ≡ false)
      × (eqb (code c) 58 ≡ false)
is_plain-facts c h = (ground arith, ground arith, ground arith, ground arith)

pub before_body-plain :
    (s t : String) → every is_plain s ≡ true → before_body (before s t) ≡ before s (before_body t)
unfolding every before_body
before_body-plain [] t h = refl
before_body-plain (c ∷ s) t h =
    let (p, ps) = both (is_plain c) (every is_plain s) h in
    let (_, _, _, colon) = is_plain-facts c p in
    rw (starts_with-head c ":" (before s t) "-" colon)
      (ap (λ (u : String). c ∷ u) (before_body-plain s t ps))

split_from-plain :
    (part s t : String)
    → every is_plain s ≡ true
    → split_from 0 part (before s t) ≡ split_from 0 (part ++ s) t
unfolding every split_from
split_from-plain part [] t h = ap (λ (u : String). split_from 0 u t) (sym (append-nil part))
split_from-plain part (c ∷ s) t h =
    let (p, ps) = both (is_plain c) (every is_plain s) h in
    let (a, b, d, e) = is_plain-facts c p in
    let joined : (part ++ (c ∷ "")) ++ s ≡ part ++ (c ∷ s) =
      append_assoc part (c ∷ "") s
      ∙ ap (λ (u : String). part ++ u)
          (cons-append c "" s ∙ ap (λ (u : String). c ∷ u) (nil-append s)) in
    rw (a, b, d)
      (split_from-plain (part ++ (c ∷ "")) s t ps ∙ ap (λ (u : String). split_from 0 u t) joined)

-- The arguments are cut out as they stand.
pub split_top_level-call :
    (a b c rest : String)
    → every is_plain a ≡ true
    → every is_plain b ≡ true
    → every is_plain c ≡ true
    → split_top_level (before a ("," ∷ before b ("," ∷ before c (")" ∷ rest))))
      ≡ cons a (cons b (cons c nil))
unfolding split_top_level split_from
split_top_level-call a b c rest ha hb hc =
    rw
      (
        split_from-plain "" a ("," ∷ before b ("," ∷ before c (")" ∷ rest))) ha,
        split_from-plain "" b ("," ∷ before c (")" ∷ rest)) hb,
        split_from-plain "" c (")" ∷ rest) hc,
        nil-append a,
        nil-append b,
        nil-append c,
      )
      refl

pub before_body-cons :
    (c : Char) (s : String) → eqb (code c) 58 ≡ false → before_body (c ∷ s) ≡ c ∷ before_body s
unfolding before_body
before_body-cons c s h = rw (starts_with-head c ":" s "-" h) refl

abbrev pub not_open : Char → Bool
not_open c = not (eqb (code c) 40)

pub every_not_open : (s : String) → every is_plain s ≡ true → every not_open s ≡ true
unfolding every
every_not_open [] h = refl
every_not_open (c ∷ s) h =
    let (p, ps) = both (is_plain c) (every is_plain s) h in
    let (a, _, _, _) = is_plain-facts c p in rw (a, every_not_open s ps) refl

pub every-before :
    (s t : String)
    → every is_plain s ≡ true
    → every not_open t ≡ true
    → every not_open (before s t) ≡ true
unfolding every
every-before [] t h k = k
every-before (c ∷ s) t h k =
    let (p, ps) = both (is_plain c) (every is_plain s) h in
    let (a, _, _, _) = is_plain-facts c p in rw (a, every-before s t ps k) refl

pub before-append : (s t : String) → before s t ≡ s ++ t
before-append [] t = sym (nil-append t)
before-append (c ∷ s) t = ap (λ (u : String). c ∷ u) (before-append s t) ∙ sym (cons-append c s t)

pub starts_with-before : (s t : String) → starts_with (before s t) s ≡ true
starts_with-before s t = rw (before-append s t) (starts_with-append s t)

-- A text without a parenthesis does not start with a call.
pub not_open-not_halt : (s : String) → every not_open s ≡ true → starts_with s "halt(" ≡ false
unfolding every
not_open-not_halt s h = elim (Bool-cases (starts_with s "halt(")) [
  | inr z ↦ z
  | inl z ↦
      let (r, e) = (starts_with_iff s "halt(").0 z in
      let opens : every not_open (before "halt(" r) ≡ true =
        subst (λ (u : String). every not_open u ≡ true) (sym (before-append "halt(" r ∙ e)) h in
      absurd (cc opens)
]

-- The text of a call behind its parenthesis.
abbrev pub arguments : (a b c rest : String) → String
arguments a b c rest = before a ("," ∷ before b ("," ∷ before c (")" ∷ rest)))

pub valid-ne_empty : (t : String) → valid_tier t ≡ true → (t == "") ≡ false
unfolding valid_tier
valid-ne_empty t h = elim (Bool-cases (t == "")) [
  | inr z ↦ z
  | inl z ↦
      let none_valid : valid_tier "" ≡ true =
        subst (λ (u : String). valid_tier u ≡ true) ((eq_iff t "").0 z) h in
      absurd (cc none_valid)
]

pub first_tier : (x y t : String) → x ≡ t → (t == "") ≡ false → (if x == "" then y else x) ≡ t
first_tier x y t e n = rw (e, n) refl

pub second_tier : (x y t : String) → x ≡ "" → y ≡ t → (if x == "" then y else x) ≡ t
second_tier x y t e f = rw e f
