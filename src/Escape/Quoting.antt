-- ===== src/Escape/Quoting.antt =====
-- A text that is escaped stays inside its quotes.
use Prim.Native.Char.{Char, code}
use Prim.Native.String.{◌∷◌, [], ◌++◌}
use text.Mathlib.TextLemmas.{nil-append, cons-append}
use manglekit.Common.{
  String, Option, none, some, ◌≡◌, arith, eqb, if◌then◌else◌, Bool, true, false, ◌∙◌,
}
use manglekit.Escape.{escape_char, escape_string}

-- Reading a Datalog string literal after its opening quote: a backslash takes the next character
-- with it, and the first other quote ends the literal. The result is what stands after it.
abbrev pub after_literal : Bool → String → Option String
after_literal skip [] = none
after_literal true (c ∷ s) = after_literal false s
after_literal false (c ∷ s) =
    let rest = after_literal (eqb (code c) 92) s in if eqb (code c) 34 then some s else rest

after_literal-escape_char :
    (c : Char) (t : String) → after_literal false (escape_char c t) ≡ after_literal false t
unfolding escape_char
after_literal-escape_char c t = ground arith

escape_char-append : (c : Char) (s t : String) → escape_char c s ++ t ≡ escape_char c (s ++ t)
unfolding escape_char
escape_char-append c s t = ground (
  arith,
  cons-append "\\" (c ∷ s) t,
  cons-append "\\" ("n" ∷ s) t,
  cons-append "\\" ("r" ∷ s) t,
  cons-append "\\" ("t" ∷ s) t,
  cons-append "n" s t,
  cons-append "r" s t,
  cons-append "t" s t,
  cons-append " " s t,
  cons-append c s t,
)

-- A quote right after the escaped text is the one that ends the literal, whatever the text holds
-- and whatever follows: no text can leave its quotes and add to the program.
pub escape-stays_quoted :
    (s rest : String) → after_literal false (escape_string s ++ ("\"" ∷ rest)) ≡ some rest
unfolding escape_string
escape-stays_quoted [] rest = rw nil-append
escape-stays_quoted (c ∷ s) rest =
    rw escape_char-append
      (after_literal-escape_char c (escape_string s ++ ("\"" ∷ rest)) ∙ escape-stays_quoted s rest)
