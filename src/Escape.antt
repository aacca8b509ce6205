-- ===== src/Escape.antt =====
-- `escapeString` of internal/engine/reflection.go: the text that goes between the quotes of a
-- Datalog string. Bytes from 128 on are copied, so the walk over characters writes the same bytes.
pub mod Quoting
mod Tests
use Prim.Native.Char.{Char, code}
use Prim.Native.String.{◌∷◌, []}
use manglekit.Common.{String, ltb, eqb, ◌||◌, if◌then◌else◌}

-- The body of the loop: what one byte writes, in front of what the later bytes write.
unfoldable pub escape_char : Char → String → String
escape_char c rest =
    if eqb (code c) 92 || eqb (code c) 34
    then "\\" ∷ c ∷ rest
    else if eqb (code c) 10
    then "\\" ∷ "n" ∷ rest
    else if eqb (code c) 13
    then "\\" ∷ "r" ∷ rest
    else if eqb (code c) 9
    then "\\" ∷ "t" ∷ rest
    else if ltb (code c) 32
    then " " ∷ rest
    else c ∷ rest

unfoldable pub escape_string : String → String
escape_string [] = ""
escape_string (c ∷ s) = escape_char c (escape_string s)
