-- ===== src/GraphKey/Laws.antt =====
-- What a key tells of its quad, and how keys are sorted.
use manglekit.Common.{ℕ, ◌^◌, ◌≤◌, ◌<◌, ◌≡◌, refl, ap, ◌∙◌, Bool, false, some, List, [], ◌∷◌, arith}
use manglekit.GraphKey.{
  put_bytes, get_bytes, put_uint64, uint64_at, key_of, encode_quad_key, quad, quad_by,
  decode_quad_key,
}
use manglekit.GraphKey.Bytes.{get_bytes-put_bytes, lex_ltb, first_then, lex_ltb-put_bytes}

-- The four numbers of a key are read back.
uint64_at-key_of :
    (prefix a b c d : ℕ)
    → a < 2 ^ 64
    → b < 2 ^ 64
    → c < 2 ^ 64
    → d < 2 ^ 64
    → let key = key_of prefix a b c d in
      (uint64_at 1 key ≡ a)
      × (uint64_at 9 key ≡ b)
      × (uint64_at 17 key ≡ c)
      × (uint64_at 25 key ≡ d)
unfolding put_bytes get_bytes
uint64_at-key_of prefix a b c d ha hb hc hd = (
  get_bytes-put_bytes 8 a [] ha,
  get_bytes-put_bytes 8 b [] hb,
  get_bytes-put_bytes 8 c [] hc,
  get_bytes-put_bytes 8 d [] hd,
)

decode_quad_key-key_of :
    (prefix a b c d : ℕ)
    → a < 2 ^ 64
    → b < 2 ^ 64
    → c < 2 ^ 64
    → d < 2 ^ 64
    → decode_quad_key (key_of prefix a b c d) ≡ quad_by prefix a b c d
unfolding decode_quad_key put_bytes
decode_quad_key-key_of prefix a b c d ha hb hc hd =
    let (ea, eb, ec, ed) = uint64_at-key_of prefix a b c d ha hb hc hd in
    λ i. quad_by prefix (ea i) (eb i) (ec i) (ed i)

-- Decoding the key that any of the four indices keeps for a quad of 64-bit numbers gives the quad
-- back; a key is encoded for these four prefixes only.
pub decode-encode_quad_key :
    (prefix s p o g : ℕ) {key : List ℕ}
    → s < 2 ^ 64
    → p < 2 ^ 64
    → o < 2 ^ 64
    → g < 2 ^ 64
    → encode_quad_key prefix s p o g ≡ some key
    → (decode_quad_key key ≡ quad s p o g) × ((16 ≤ prefix) × (prefix ≤ 19))
unfolding encode_quad_key quad_by
decode-encode_quad_key prefix s p o g {key} hs hp ho hg h = ground (
  arith,
  decode_quad_key-key_of prefix s p o g hs hp ho hg,
  decode_quad_key-key_of prefix p o s g hp ho hs hg,
  decode_quad_key-key_of prefix p s o g hp hs ho hg,
  decode_quad_key-key_of prefix g s p o hg hs hp ho,
)

lex_ltb-same : (x : ℕ) (xs ys : List ℕ) → lex_ltb (x ∷ xs) (x ∷ ys) ≡ lex_ltb xs ys
unfolding lex_ltb
lex_ltb-same x xs ys = ground arith

lex_ltb-empty : lex_ltb [] [] ≡ false
unfolding lex_ltb
lex_ltb-empty = refl

-- The keys of one index sort byte by byte as their four 64-bit numbers do, the first one first.
pub key_of-order :
    (prefix a b c d a' b' c' d' : ℕ)
    → a < 2 ^ 64
    → b < 2 ^ 64
    → c < 2 ^ 64
    → d < 2 ^ 64
    → a' < 2 ^ 64
    → b' < 2 ^ 64
    → c' < 2 ^ 64
    → d' < 2 ^ 64
    → lex_ltb (key_of prefix a b c d) (key_of prefix a' b' c' d')
      ≡ first_then a a' (first_then b b' (first_then c c' (first_then d d' false)))
key_of-order prefix a b c d a' b' c' d' ha hb hc hd ha' hb' hc' hd' =
    let r1 = lex_ltb-put_bytes 8 d d' [] [] hd hd' in
    let r2 = lex_ltb-put_bytes 8 c c' (put_uint64 d []) (put_uint64 d' []) hc hc' in
    let r3 =
      lex_ltb-put_bytes 8 b b' (put_uint64 c (put_uint64 d [])) (put_uint64 c' (put_uint64 d' []))
        hb hb' in
    let xs = put_uint64 b (put_uint64 c (put_uint64 d [])) in
    let ys = put_uint64 b' (put_uint64 c' (put_uint64 d' [])) in
    lex_ltb-same prefix (put_uint64 a xs) (put_uint64 a' ys)
    ∙ lex_ltb-put_bytes 8 a a' xs ys ha ha'
    ∙ ap (λ (r : Bool). first_then a a' r)
        (r3
          ∙ ap (λ (r : Bool). first_then b b' r)
              (r2
                ∙ ap (λ (r : Bool). first_then c c' r)
                    (r1 ∙ ap (λ (r : Bool). first_then d d' r) lex_ltb-empty)))
