-- ===== src/GraphKey/Bytes.antt =====
-- Numbers as bytes, the high byte first.
use manglekit.Common.{
  ℕ, zero, suc, ◌*◌, ◌/◌, ◌%◌, ◌<◌, ◌≡◌, ap, ◌∙◌, Bool, true, false, List, [], ◌∷◌, arith, ltb,
  if◌then◌else◌,
}
use manglekit.GraphKey.{put_bytes, get_bytes}

-- The numbers that fit `k` bytes are those below this one.
abbrev pub bound : ℕ → ℕ
bound zero = 1
bound (suc k) = 256 * bound k

pub get_bytes-put_bytes :
    (k n : ℕ) (rest : List ℕ) → n < bound k → get_bytes 0 (put_bytes k n rest) ≡ get_bytes n rest
unfolding put_bytes get_bytes
get_bytes-put_bytes zero n rest h = ap (λ (m : ℕ). get_bytes m rest) (omega arith)
get_bytes-put_bytes (suc k) n rest h =
    get_bytes-put_bytes k (n / 256) (n % 256 ∷ rest) (omega arith)
    ∙ ap (λ (m : ℕ). get_bytes m rest) (omega arith)

-- The order in which a store of keys sorts them.
unfoldable pub lex_ltb : List ℕ → List ℕ → Bool
lex_ltb [] [] = false
lex_ltb [] (y ∷ ys) = true
lex_ltb (x ∷ xs) [] = false
lex_ltb (x ∷ xs) (y ∷ ys) =
    let rest = lex_ltb xs ys in if ltb x y then true else if ltb y x then false else rest

-- First by the number, then by what stands behind it.
abbrev pub first_then : ℕ → ℕ → Bool → Bool
first_then n m rest = if ltb n m then true else if ltb m n then false else rest

pub lex_ltb-put_bytes :
    (k n m : ℕ) (xs ys : List ℕ)
    → n < bound k
    → m < bound k
    → lex_ltb (put_bytes k n xs) (put_bytes k m ys) ≡ first_then n m (lex_ltb xs ys)
unfolding put_bytes lex_ltb
lex_ltb-put_bytes zero n m xs ys hn hm = ground arith
lex_ltb-put_bytes (suc k) n m xs ys hn hm =
    lex_ltb-put_bytes k (n / 256) (m / 256) (n % 256 ∷ xs) (m % 256 ∷ ys) (omega arith)
      (omega arith)
    ∙ ground arith
