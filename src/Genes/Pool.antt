-- ===== src/Genes/Pool.antt =====
-- `Pool` of x/genes/pool.go, with the manifest that YAML gives and takes.
use manglekit.Common.{
  ℕ, String, Bool, true, false, not, ◌==◌, ◌||◌, Option, none, some, List, [], ◌∷◌, contains,
  str_ltb, if◌then◌else◌, eqb,
}
use manglekit.Genes.{Gene, Hash, valid_tier, set_signature_hex, verify}

-- manifestGene
pub record Entry : Type 0 where
  pub name : String
  pub tier : String
  pub source : String
  pub intents : List String
  pub rules : String
  pub signature : String

pub record Manifest : Type 0 where
  pub version : ℕ
  pub genes : List Entry

abbrev pub is_empty : List String → Bool
is_empty [] = true
is_empty (x ∷ xs) = false

module _ (H : Hash) where
  open H use {Digest, zero_digest}

  abbrev pub bare : Entry → Gene Digest
  bare e = record {
    name = e.name;
    tier = e.tier;
    source = e.source;
    intents = e.intents;
    rules = e.rules;
    signature = zero_digest;
    signed = false;
  }

  -- One round of the loop of `LoadPool`; none is an error.
  unfoldable pub load_gene : List String → Entry → Option (Gene Digest)
  load_gene seen e =
      if e.name == "" || contains seen e.name
      then none
      else if not (valid_tier e.tier)
      then none
      else if e.rules == ""
      then none
      else if e.signature == ""
      then none
      else elim (set_signature_hex H e.signature (bare e)) [
        | none ↦ none
        | some g ↦ if verify H g then some g else none
      ]

  unfoldable pub load_genes : List String → List Entry → Option (List (Gene Digest))
  load_genes seen [] = some []
  load_genes seen (e ∷ es) =
      let rest = load_genes (e.name ∷ seen) es in
      elim (load_gene seen e) [
        | none ↦ none
        | some g ↦ elim rest [ none ↦ none | some gs ↦ some (g ∷ gs) ]
      ]

  unfoldable pub load_pool : Manifest → Option (List (Gene Digest))
  load_pool m = if eqb m.version 1 then load_genes [] m.genes else none

  abbrev pub entry : Gene Digest → Entry
  entry g = record {
    name = g.name;
    tier = g.tier;
    source = g.source;
    intents = g.intents;
    rules = g.rules;
    signature = H.encode_to_string g.signature;
  }

  unfoldable pub entries : List (Gene Digest) → Option (List Entry)
  entries [] = some []
  entries (g ∷ gs) =
      let rest = entries gs in
      if not g.signed then none else elim rest [ none ↦ none | some es ↦ some (entry g ∷ es) ]

  -- none is an error
  unfoldable pub write_pool : List (Gene Digest) → Option Manifest
  write_pool gs = elim (entries gs) [
    | none ↦ none
    | some es ↦ some (record { version = 1; genes = es })
  ]

  unfoldable pub insert_by_name : Gene Digest → List (Gene Digest) → List (Gene Digest)
  insert_by_name g [] = g ∷ []
  insert_by_name g (h ∷ hs) =
      let rest = insert_by_name g hs in if str_ltb h.name g.name then h ∷ rest else g ∷ h ∷ hs

  -- `Genes`: sorted by name; the names of a pool differ, so there is one such order.
  unfoldable pub genes_by_name : List (Gene Digest) → List (Gene Digest)
  genes_by_name [] = []
  genes_by_name (g ∷ gs) = insert_by_name g (genes_by_name gs)

  unfoldable pub those_for : String → List (Gene Digest) → List (Gene Digest)
  those_for intent [] = []
  those_for intent (g ∷ gs) =
      let rest = those_for intent gs in
      if is_empty g.intents || contains g.intents intent then g ∷ rest else rest

  unfoldable pub active : String → List (Gene Digest) → List (Gene Digest)
  active intent gs = those_for intent (genes_by_name gs)
