-- ===== src/GraphKey/Tests.antt =====
-- A key of the index by predicate and object.
use manglekit.Common.{◌≤◌, ◌≡◌, refl, false, none, [], ◌∷◌, arith}
use manglekit.GraphKey.{quad, invalid_length, key_of, encode_quad_key, decode_quad_key}
use manglekit.GraphKey.Bytes.{lex_ltb, first_then}
use manglekit.GraphKey.Laws.{decode-encode_quad_key, key_of-order}

decode-encode_quad_key_example :
    (decode_quad_key (key_of 17 256 3 1 4) ≡ quad 1 256 3 4) × ((16 ≤ 17) × (17 ≤ 19))
unfolding encode_quad_key
decode-encode_quad_key_example =
    decode-encode_quad_key 17 1 256 3 4 {key = key_of 17 256 3 1 4} (omega arith) (omega arith)
      (omega arith) (omega arith) refl

key_of-order_example :
    lex_ltb (key_of 16 1 255 0 0) (key_of 16 1 256 0 0)
    ≡ first_then 1 1 (first_then 255 256 (first_then 0 0 (first_then 0 0 false)))
key_of-order_example =
    key_of-order 16 1 255 0 0 1 256 0 0 (omega arith) (omega arith) (omega arith) (omega arith)
      (omega arith) (omega arith) (omega arith) (omega arith)

short_key : decode_quad_key (16 ∷ 0 ∷ []) ≡ invalid_length
unfolding decode_quad_key
short_key = refl

no_index : encode_quad_key 20 1 2 3 4 ≡ none
unfolding encode_quad_key
no_index = refl
