-- ===== src/Genes.antt =====
-- x/genes: rules that were learned, signed, kept in a manifest and compiled to a policy. SHA-256 and
-- the hexadecimal text of a digest are the record `Hash`; the YAML around a manifest is other code.
pub mod Pool
pub mod Head
pub mod Compile
pub mod Loaded
pub mod Cuts
pub mod Found
pub mod Tiers
pub mod Compiled
pub mod Own
mod Tests
use Prim.Native.String.{◌++◌ as join}
use manglekit.Common.{
  String, Bool, true, false, not, ◌==◌, ◌||◌, ◌&&◌, Option, none, some, List, [], ◌∷◌, Map,
  if◌then◌else◌,
}

pub record Gene (Digest : Type 0) : Type 0 where
  pub name : String
  pub tier : String
  pub source : String
  pub intents : List String
  pub rules : String
  pub signature : Digest
  pub signed : Bool

pub record Hash : Type 1 where
  pub Digest : Type 0
  pub zero_digest : Digest
  pub same : Digest → Digest → Bool
  -- SHA-256 of a text and of the bytes of a digest
  pub sum256 : String → Digest
  pub sum256_again : Digest → Digest
  pub encode_to_string : Digest → String
  -- none if the text is no hexadecimal text of 32 bytes
  pub decode_string : String → Option Digest

-- The texts that `%v` writes between the brackets of a slice.
unfoldable pub spaced : List String → String
spaced [] = ""
spaced (s ∷ []) = s
spaced (s ∷ t ∷ ts) = join s (join " " (spaced (t ∷ ts)))

unfoldable pub valid_tier : String → Bool
valid_tier t = (t == "T0" || t == "T1") || (t == "T2" || t == "T3")

unfoldable pub is_hard_tier : String → Bool
is_hard_tier t = t == "T0" || t == "T1"

module _ (H : Hash) where
  open H use {Digest}

  -- The text that is hashed.
  unfoldable pub preamble : Gene Digest → String
  preamble g = join "name=" (
      join g.name (
        join "\ntier=" (
          join g.tier (
            join "\nsource=" (
              join g.source (
                join "\nintents=["
                  (join (spaced g.intents) (join "]\nrules=" (join g.rules "\n")))))))))

  unfoldable pub canonical : Gene Digest → Digest
  canonical g = H.sum256 (preamble g)

  unfoldable pub sign : Gene Digest → Gene Digest
  sign g = record g { signature = H.sum256_again (canonical g); signed = true }

  unfoldable pub set_signature_hex : String → Gene Digest → Option (Gene Digest)
  set_signature_hex s g = elim (H.decode_string s) [
    | none ↦ none
    | some d ↦ some (record g { signature = d; signed = true })
  ]

  unfoldable pub verify : Gene Digest → Bool
  verify g = g.signed && H.same g.signature (H.sum256_again (canonical g))
