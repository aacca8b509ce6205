-- ===== src/Escape/Tests.antt =====
-- Escaped texts.
use Prim.Native.String.{◌∷◌, ◌++◌}
use manglekit.Common.{some, ◌≡◌, refl, false}
use manglekit.Escape.{escape_char, escape_string}
use manglekit.Escape.Quoting.{after_literal, escape-stays_quoted}

escapes : escape_string "a\"b" ≡ "a\\\"b"
unfolding escape_string escape_char
escapes = refl

escape-stays_quoted_example :
    after_literal false (escape_string "\"), halt(" ++ ("\"" ∷ ").")) ≡ some ")."
escape-stays_quoted_example = escape-stays_quoted "\"), halt(" ")."
