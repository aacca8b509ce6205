-- ===== src/GraphKey.antt =====
-- internal/adapters/storage/graph/encoding.go: the keys under which the indices of the graph keep a
-- quad. A byte and a uint64 are natural numbers; the statements bound them.
pub mod Bytes
pub mod Laws
mod Tests
use manglekit.Common.{
  ℕ, zero, suc, ◌+◌, ◌*◌, ◌/◌, ◌%◌, String, Bool, true, false, not, Option, none, some, List, [],
  ◌∷◌, eqb, length, if◌then◌else◌,
}

-- The last `k` bytes of a number, the high one first, in front of what stands there.
unfoldable pub put_bytes : ℕ → ℕ → List ℕ → List ℕ
put_bytes zero n rest = rest
put_bytes (suc k) n rest = put_bytes k (n / 256) (n % 256 ∷ rest)

-- `binary.BigEndian.PutUint64` into eight bytes, with what comes behind them.
abbrev pub put_uint64 : ℕ → List ℕ → List ℕ
put_uint64 n rest = put_bytes 8 n rest

unfoldable pub get_bytes : ℕ → List ℕ → ℕ
get_bytes acc [] = acc
get_bytes acc (b ∷ bs) = get_bytes (acc * 256 + b) bs

abbrev pub drop : ℕ → List ℕ → List ℕ
drop zero xs = xs
drop (suc n) [] = []
drop (suc n) (x ∷ xs) = drop n xs

abbrev pub take : ℕ → List ℕ → List ℕ
take zero xs = []
take (suc n) [] = []
take (suc n) (x ∷ xs) = x ∷ take n xs

-- `binary.BigEndian.Uint64(key[i:i+8])`
abbrev pub uint64_at : ℕ → List ℕ → ℕ
uint64_at i key = get_bytes 0 (take 8 (drop i key))

-- The indices that the first byte of a key tells apart.
abbrev pub prefix_spog : ℕ
prefix_spog = 16

abbrev pub prefix_posg : ℕ
prefix_posg = 17

abbrev pub prefix_psog : ℕ
prefix_psog = 18

abbrev pub prefix_gspo : ℕ
prefix_gspo = 19

abbrev pub key_of : ℕ → ℕ → ℕ → ℕ → ℕ → List ℕ
key_of prefix a b c d = prefix ∷ put_uint64 a (put_uint64 b (put_uint64 c (put_uint64 d [])))

-- `none` is the panic at a prefix of no index.
unfoldable pub encode_quad_key : ℕ → ℕ → ℕ → ℕ → ℕ → Option (List ℕ)
encode_quad_key prefix s p o g =
    if eqb prefix prefix_spog
    then some (key_of prefix s p o g)
    else if eqb prefix prefix_posg
    then some (key_of prefix p o s g)
    else if eqb prefix prefix_psog
    then some (key_of prefix p s o g)
    else if eqb prefix prefix_gspo
    then some (key_of prefix g s p o)
    else none

pub data Decoded : Type 0 where
  quad : ℕ → ℕ → ℕ → ℕ → Decoded
  invalid_length invalid_prefix : Decoded

-- The quad of the four numbers of a key, by its first byte.
unfoldable pub quad_by : ℕ → ℕ → ℕ → ℕ → ℕ → Decoded
quad_by prefix a b c d =
    if eqb prefix prefix_spog
    then quad a b c d
    else if eqb prefix prefix_posg
    then quad c a b d
    else if eqb prefix prefix_psog
    then quad b a c d
    else if eqb prefix prefix_gspo
    then quad b c d a
    else invalid_prefix

unfoldable pub decode_quad_key : List ℕ → Decoded
decode_quad_key [] = invalid_length
decode_quad_key (b ∷ bs) =
    if not (eqb (length (b ∷ bs)) 33)
    then invalid_length
    else let key = b ∷ bs in
      quad_by b (uint64_at 1 key) (uint64_at 9 key) (uint64_at 17 key) (uint64_at 25 key)
