-- ===== src/Client/Similar.antt =====
-- `normalizeString` and `isSemanticallySimilar` of sdk/loop.go. The tables of Go's `unicode` are
-- parameters.
use Prim.Native.Char.{Char}
use Prim.Native.String.{◌∷◌, []}
use text.Mathlib.Text.{find?}
use manglekit.Common.{
  ◌≡◌, String, Bool, true, false, ◌||◌, ◌==◌, eq_iff, eq_refl, none, some, arith, if◌then◌else◌,
  List,
}
use mathlib.Core.List.{◌∷◌ as cons, [] as nil}

pub record Unicode : Type 0 where
  pub is_punct : Char → Bool
  pub is_space : Char → Bool
  pub to_lower : Char → Char

-- Where the words of `strings.Fields` stand that `strings.Join` puts together.
pub data Gap : Type 0 where
  before_first in_word after_word : Gap

module _ (u : Unicode) where
  open u use {is_punct, is_space, to_lower}

  -- The loop: lower case, without punctuation.
  abbrev pub lower_words : String → String
  lower_words [] = ""
  lower_words (c ∷ s) = if is_punct c then lower_words s else to_lower c ∷ lower_words s

  abbrev leave : Gap → Gap
  leave in_word = after_word
  leave g = g

  abbrev separate : Gap → String → String
  separate after_word s = " " ∷ s
  separate _ s = s

  -- `strings.Join(strings.Fields(s), " ")`
  abbrev pub collapse : Gap → String → String
  collapse g [] = ""
  collapse g (c ∷ s) =
      if is_space c then collapse (leave g) s else separate g (c ∷ collapse in_word s)

  unfoldable pub normalize_string : String → String
  normalize_string s = if s == "" then "" else collapse before_first (lower_words s)

  -- `strings.Contains`
  abbrev pub has_part : String → String → Bool
  has_part s t = elim (find? s t) [ none ↦ false | some n ↦ true ]

  unfoldable pub is_semantically_similar : String → String → Bool
  is_semantically_similar s1 s2 =
      let n1 = normalize_string s1 in
      let n2 = normalize_string s2 in
      if s1 == s2
      then true
      else if n1 == n2
      then true
      else if n1 == "" || n2 == ""
      then false
      else has_part n1 n2 || has_part n2 n1

  -- Which of two feedbacks came first makes no difference to their being similar, and a feedback is
  -- similar to itself.
  pub is_semantically_similar-sym :
      (s t : String)
      → (is_semantically_similar s t ≡ is_semantically_similar t s)
        × (is_semantically_similar s s ≡ true)
  unfolding is_semantically_similar
  is_semantically_similar-sym s t = (
    ground (
      arith,
      eq_iff s t,
      eq_iff t s,
      eq_iff (normalize_string s) (normalize_string t),
      eq_iff (normalize_string t) (normalize_string s),
    ),
    ground (arith, eq_refl s),
  )

  -- The loop over the feedback given so far.
  unfoldable pub thrashes : List String → String → Bool
  thrashes nil hint = false
  thrashes (cons prev fs) hint =
      let rest = thrashes fs hint in if is_semantically_similar prev hint then true else rest
