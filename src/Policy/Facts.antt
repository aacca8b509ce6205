-- ===== src/Policy/Facts.antt =====
-- The facts of a request: `toMangleFacts`, `LabelsToFacts`, `appendEnvelopeFacts` and the cache of
-- `parseCachedAtom`.
use Prim.Native.String.{◌++◌ as join}
use manglekit.Common.{
  ℕ, String, Bool, true, false, ◌==◌, Option, none, some, List, [], ◌∷◌, ◌++◌, Map, lookup, insert,
  length, ltb, if◌then◌else◌,
}
use manglekit.Escape.{escape_string}
use manglekit.Explain.{BaseTerm, rigid, Atom}
use manglekit.Policy.{Engine}
use manglekit.SessionState.{Envelope}
use manglekit.Workflow.{Value, null, str, other}

abbrev pub max_fact_parse_cache_entries : ℕ
max_fact_parse_cache_entries = 4096

module _ (E : Engine) where
  open E use {Constant}

  unfoldable pub parse_cached_atom :
      String → Map (Atom Constant) → Option (Atom Constant) × Map (Atom Constant)
  parse_cached_atom fact cache = elim (lookup fact cache) [
    | some a ↦ (some a, cache)
    | none ↦ elim (E.parse_atom fact) [
      | none ↦ (none, cache)
      | some a ↦ (
        some a,
        if ltb (length cache) max_fact_parse_cache_entries then insert fact a cache else cache,
      )
    ]
  ]

  -- Each fact parsed; none if one does not parse.
  unfoldable pub parse_all : List String → Option (List (Atom Constant))
  parse_all [] = some []
  parse_all (f ∷ fs) =
      let rest = parse_all fs in
      elim (E.parse_atom f) [
        | none ↦ none
        | some a ↦ elim rest [ none ↦ none | some more ↦ some (a ∷ more) ]
      ]

  abbrev pub parse_given : Option (List String) → Option (List (Atom Constant))
  parse_given none = none
  parse_given (some facts) = parse_all facts

  unfoldable pub to_mangle_facts : String → Value → String → Option (List (Atom Constant))
  to_mangle_facts entity null content_type = some []
  to_mangle_facts entity (str s) content_type =
      parse_given
        (if content_type == "JSON" then E.flatten entity (str s) else E.to_facts entity (str s))
  to_mangle_facts entity (other n) content_type =
      parse_given
        (if content_type == "JSON" then E.flatten entity (other n) else E.to_facts entity (other n))

  abbrev pub string_term : String → BaseTerm Constant
  string_term s = elim (E.number s) [ none ↦ rigid (E.text s) | some c ↦ rigid c ]

  abbrev pub meta_atom : String → String → Atom Constant
  meta_atom k v = record {
    predicate = record { symbol = "meta"; arity = 2 };
    args = rigid (E.text k) ∷ rigid (E.text v) ∷ [];
  }

  abbrev pub attempt_atom : String → Atom Constant
  attempt_atom v = record {
    predicate = record { symbol = "attempt"; arity = 1 };
    args = string_term v ∷ [];
  }

  abbrev pub meta_elements : String → List Value → List (Atom Constant)
  meta_elements k [] = []
  meta_elements k (v ∷ vs) = meta_atom k (E.print v) ∷ meta_elements k vs

  -- The facts of one entry of the metadata.
  unfoldable pub meta_facts : String → Value → List (Atom Constant)
  meta_facts k v = elim (E.elements v) [
    | some vs ↦ meta_elements k vs
    | none ↦
        meta_atom k (E.print v) ∷ (if k == "retry_count" then attempt_atom (E.print v) ∷ [] else [])
  ]

  unfoldable pub metadata_facts : Map Value → List (Atom Constant)
  metadata_facts [] = []
  metadata_facts ((k, v) ∷ m) = meta_facts k v ++ metadata_facts m

  -- The envelope's facts up to the first that does not parse, whether all did, and the cache.
  unfoldable pub append_facts :
      List (Atom Constant)
      → List String
      → Map (Atom Constant)
      → Bool × List (Atom Constant) × Map (Atom Constant)
  append_facts facts [] cache = (true, facts, cache)
  append_facts facts (f ∷ fs) cache =
      let (parsed, cache') = parse_cached_atom f cache in
      elim parsed [
        | none ↦ (false, facts, cache')
        | some a ↦ append_facts (facts ++ (a ∷ [])) fs cache'
      ]

  unfoldable pub append_envelope_facts :
      List (Atom Constant)
      → Envelope
      → Map (Atom Constant)
      → Bool × List (Atom Constant) × Map (Atom Constant)
  append_envelope_facts facts env cache =
      let (fine, all, cache') = append_facts facts env.facts cache in
      if fine then (true, all ++ metadata_facts env.metadata, cache') else (false, all, cache')

-- `LabelsToFacts`
unfoldable pub labels_to_facts : List String → List String
labels_to_facts [] = []
labels_to_facts (l ∷ ls) = join "label(\"" (join (escape_string l) "\")") ∷ labels_to_facts ls
