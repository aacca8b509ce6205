-- ===== src/Runtime/Key.antt =====
-- `idbCacheKey`: the 64-bit FNV-1a hash of the two versions and the facts' texts.
use Prim.Native.Char.{code}
use Prim.Native.Nat.{bit_xor}
use manglekit.Common.{
  ℕ, zero, suc, ◌+◌, ◌*◌, ◌/◌, ◌%◌, ◌^◌, String, List, [], ◌∷◌, ◌++◌, ltb, if◌then◌else◌,
}

abbrev pub fnv_offset : ℕ
fnv_offset = 14695981039346656037

abbrev pub fnv_prime : ℕ
fnv_prime = 1099511628211

-- `Write` of the standard library's `fnv.New64a` on its sum
unfoldable pub fnv_write : ℕ → List ℕ → ℕ
fnv_write h [] = h
fnv_write h (b ∷ bs) = fnv_write (bit_xor h b * fnv_prime % 2 ^ 64) bs

-- The bytes of `binary.LittleEndian.PutUint64`, `n` of them.
unfoldable pub little_endian : ℕ → ℕ → List ℕ
little_endian zero v = []
little_endian (suc n) v = v % 256 ∷ little_endian n (v / 256)

-- The UTF-8 bytes of a character.
unfoldable pub char_bytes : ℕ → List ℕ
char_bytes c =
    if ltb c 128
    then c ∷ []
    else if ltb c 2048
    then (192 + c / 64) ∷ (128 + c % 64) ∷ []
    else if ltb c 65536
    then (224 + c / 4096) ∷ (128 + c / 64 % 64) ∷ (128 + c % 64) ∷ []
    else (240 + c / 262144) ∷ (128 + c / 4096 % 64) ∷ (128 + c / 64 % 64) ∷ (128 + c % 64) ∷ []

unfoldable pub text_bytes : String → List ℕ
text_bytes String.[] = []
text_bytes (String.◌∷◌ c s) = char_bytes (code c) ++ text_bytes s

-- Each text is followed by a zero byte.
unfoldable pub fact_bytes : List String → List ℕ
fact_bytes [] = []
fact_bytes (f ∷ fs) = text_bytes f ++ (0 ∷ fact_bytes fs)

unfoldable pub idb_cache_key : ℕ → ℕ → List String → ℕ
idb_cache_key program_version base_version facts =
    fnv_write fnv_offset
      (little_endian 8 program_version ++ (little_endian 8 base_version ++ fact_bytes facts))
