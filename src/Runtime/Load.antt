-- ===== src/Runtime/Load.antt =====
-- What changes the program and its facts under one lock: `LoadFacts`, `addPolicy` from the parsed
-- source on, `RegisterExternalPredicate` and `EnableTemporal`; and the declarations of external
-- predicates.
use manglekit.Common.{
  ◌+◌, String, Bool, true, false, not, ◌==◌, Option, none, some, List, [], ◌∷◌, ◌++◌, contains,
  if◌then◌else◌,
}
use manglekit.Explain.{
  BaseTerm, variable, rigid, PredicateSym, Premise, positive, negative, equal, unequal, opaque,
  Clause,
}
use manglekit.Runtime.{Library, Runtime, bump}

pub data LoadError : Type 0 where
  empty_source empty_name nil_function parse_failed analysis_failed evaluation_failed : LoadError

module _ (L : Library) where
  open L use {Constant, SourceUnit, Program, Store, Ctx}

  -- `invalidateIDBCacheLocked`
  abbrev pub invalidate : Runtime L → Runtime L
  invalidate r = record r { idb_cache = none }

  -- Whether all facts parsed, and the two stores with those up to the first that did not.
  unfoldable pub add_facts : List String → Store → Store → Bool × Store × Store
  add_facts [] base explicit = (true, base, explicit)
  add_facts (f ∷ fs) base explicit = elim (L.parse_atom f) [
    | none ↦ (false, base, explicit)
    | some a ↦ add_facts fs (L.add a base) (L.add a explicit)
  ]

  -- `evaluate` on the store of base facts
  unfoldable pub evaluate_base : Ctx → Runtime L → Option LoadError × Runtime L
  evaluate_base ctx r = elim r.program [
    | none ↦ (none, r)
    | some p ↦
        let (fine, base) = L.evaluate ctx (L.options_for p r.external_preds) p r.base_fact_store in
        (
          if fine then none else some evaluation_failed,
          record r { base_fact_store = base; eval_count = r.eval_count + 1 },
        )
  ]

  unfoldable pub load_facts : Ctx → List String → Runtime L → Option LoadError × Runtime L
  load_facts ctx facts r =
      let (parsed, base, explicit) = add_facts facts r.base_fact_store r.explicit_fact_store in
      let added = record r { base_fact_store = base; explicit_fact_store = explicit } in
      if not parsed
      then (some parse_failed, added)
      else if r.ready
      then evaluate_base ctx (invalidate (record added { base_version = bump r.base_version }))
      else (none, added)

  -- The modes of a predicate's arguments: constants are inputs.
  unfoldable pub modes : List (BaseTerm Constant) → List String
  modes [] = []
  modes (variable x ∷ bs) = "-" ∷ modes bs
  modes (rigid c ∷ bs) = elim (L.terms.constant_symbol c) [ none ↦ "-" | some s ↦ "+" ] ∷ modes bs

  -- The first premise that is an atom of the predicate.
  unfoldable pub premise_usage :
      String → List (Premise Constant) → Option (PredicateSym × List String)
  premise_usage name [] = none
  premise_usage name (positive a ∷ ps) =
      let rest = premise_usage name ps in
      if a.predicate.symbol == name then some (a.predicate, modes a.args) else rest
  premise_usage name (negative a ∷ ps) = premise_usage name ps
  premise_usage name (equal s t ∷ ps) = premise_usage name ps
  premise_usage name (unequal s t ∷ ps) = premise_usage name ps
  premise_usage name (opaque s ∷ ps) = premise_usage name ps

  unfoldable pub find_predicate_usage :
      String → List (Clause Constant) → Option (PredicateSym × List String)
  find_predicate_usage name [] = none
  find_predicate_usage name (c ∷ cs) =
      let rest = find_predicate_usage name cs in
      elim (premise_usage name c.premises) [
        | some usage ↦ some usage
        | none ↦
            if c.head.predicate.symbol == name
            then some (c.head.predicate, modes c.head.args)
            else rest
      ]

  -- The first unit that refers to the predicate.
  unfoldable pub first_usage : String → List SourceUnit → Option (PredicateSym × List String)
  first_usage name [] = none
  first_usage name (u ∷ us) =
      let rest = first_usage name us in
      elim (find_predicate_usage name (L.clauses u)) [ some usage ↦ some usage | none ↦ rest ]

  -- `edbDeclarations` of the registered names
  unfoldable pub edb_declarations :
      List String → List SourceUnit → List (PredicateSym × List String)
  edb_declarations [] units = []
  edb_declarations (name ∷ names) units =
      let rest = edb_declarations names units in
      elim (first_usage name units) [ some usage ↦ usage ∷ rest | none ↦ rest ]

  -- `addPolicy` with the cleaned text and its unit, if it parses.
  unfoldable pub add_unit :
      Ctx → Bool → String → Option SourceUnit → Runtime L → Option LoadError × Runtime L
  add_unit ctx persistent cleaned none r = (some parse_failed, r)
  add_unit ctx persistent cleaned (some unit) r =
      let units = r.rule_units ++ (unit ∷ []) in
      elim (L.analyze units (edb_declarations r.external_preds units)) [
        | none ↦ (some analysis_failed, r)
        | some p ↦ evaluate_base ctx (
            invalidate (record r {
              rule_units = units;
              persistent_units =
                  if persistent then r.persistent_units ++ (unit ∷ []) else r.persistent_units;
              persistent_sources =
                  if persistent
                  then r.persistent_sources ++ (cleaned ∷ [])
                  else r.persistent_sources;
              program = some p;
              ready = true;
              program_version = bump r.program_version;
            }))
      ]

  unfoldable pub add_policy :
      Ctx → Bool → String → String → Option SourceUnit → Runtime L → Option LoadError × Runtime L
  add_policy ctx persistent source cleaned unit r =
      if source == "" then (none, r) else add_unit ctx persistent cleaned unit r

  unfoldable pub register_external_predicate :
      String → Bool → Runtime L → Option LoadError × Runtime L
  register_external_predicate name is_nil r =
      if name == ""
      then (some empty_name, r)
      else if is_nil
      then (some nil_function, r)
      else if contains r.external_preds name
      then (none, r)
      else (none, record r { external_preds = r.external_preds ++ (name ∷ []) })

  abbrev pub enable_temporal : Runtime L → Runtime L
  enable_temporal r = record r { temporal_enabled = true }
