-- ===== src/Runtime/Reload.antt =====
-- `ReloadFromSource` from the parsed source on, with `filterBaseFacts`: what it does under each lock,
-- and the whole of it with nothing in between.
use manglekit.Common.{
  ℕ, zero, suc, arith, ◌≡◌, ◌+◌, String, Bool, true, false, ◌==◌, Option, none, some, List, [], ◌∷◌,
  if◌then◌else◌,
}
use manglekit.Explain.{PredicateSym, Atom}
use manglekit.Explain.Prover.{same_predicate}
use manglekit.Runtime.{Library, Runtime, bump}
use manglekit.Runtime.Load.{
  LoadError, empty_source, parse_failed, analysis_failed, evaluation_failed, invalidate,
  edb_declarations,
}

module _ (L : Library) where
  open L use {Constant, SourceUnit, Program, Store, Ctx, Options}

  -- `oldIDB[sym]`
  unfoldable pub is_idb : List PredicateSym → PredicateSym → Bool
  is_idb [] p = false
  is_idb (q ∷ qs) p = let rest = is_idb qs p in if same_predicate q p then true else rest

  unfoldable pub add_explicit : Store → List (Atom Constant) → Store → Store
  add_explicit explicit [] out = out
  add_explicit explicit (a ∷ more) out =
      add_explicit explicit more (if L.contains explicit a then L.add a out else out)

  unfoldable pub add_all : List (Atom Constant) → Store → Store
  add_all [] out = out
  add_all (a ∷ more) out = add_all more (L.add a out)

  unfoldable pub filter_predicates :
      Store → List PredicateSym → Store → List PredicateSym → Store → Store
  filter_predicates store old_idb explicit [] out = out
  filter_predicates store old_idb explicit (p ∷ ps) out =
      let facts = L.get_facts store p in
      filter_predicates store old_idb explicit ps
        (if is_idb old_idb p then add_explicit explicit facts out else add_all facts out)

  -- Without a program before it, everything is kept.
  unfoldable pub filter_base_facts : Store → Option (List PredicateSym) → Store → Store
  filter_base_facts store none explicit = L.merge L.empty store
  filter_base_facts store (some old_idb) explicit =
      filter_predicates store old_idb explicit (L.list_predicates store) L.empty

  unfoldable pub old_predicates : Option Program → Option (List PredicateSym)
  old_predicates none = none
  old_predicates (some p) = some (L.idb_predicates p)

  -- The unit of the text with its standard library, if it parses, before the persistent units, and
  -- the program of these units.
  unfoldable pub analyze_units :
      Option SourceUnit
      → List SourceUnit
      → Runtime L
      → Option LoadError × Option (List SourceUnit × Program)
  analyze_units none persistent r = (some parse_failed, none)
  analyze_units (some unit) persistent r =
      let units = unit ∷ persistent in
      elim (L.analyze units (edb_declarations L r.external_preds units)) [
        | none ↦ (some analysis_failed, none)
        | some p ↦ (none, some (units, p))
      ]

  -- Under `RLock`: the copy of the explicit facts, and that of the base facts that are kept.
  abbrev pub copy_explicit : Runtime L → Store
  copy_explicit r = L.merge L.empty r.explicit_fact_store

  abbrev pub copy_base : Runtime L → Store
  copy_base r = filter_base_facts r.base_fact_store (old_predicates r.program) (copy_explicit r)

  abbrev pub count_evaluation : Runtime L → Runtime L
  count_evaluation r = record r { eval_count = r.eval_count + 1 }

  -- The swap.
  abbrev pub swap_program : List SourceUnit → Program → Store → Store → Runtime L → Runtime L
  swap_program units p base explicit r = invalidate L (record r {
    rule_units = units;
    base_fact_store = base;
    explicit_fact_store = explicit;
    program = some p;
    ready = true;
    program_version = bump r.program_version;
    base_version = bump r.base_version;
  })

  -- A reload between two of its turns, with what it has read and made so far.
  pub data Reloading : Type 0 where
    -- the persistent units are copied
    started : Option SourceUnit → List SourceUnit → Reloading
    analyzed : List SourceUnit → Program → Reloading
    -- the base facts that are kept, and the explicit facts
    copied : List SourceUnit → Program → Store → Store → Reloading
    -- the evaluation is counted, and its options are read
    counted : List SourceUnit → Program → Store → Store → Options → Reloading
    -- the base facts with what the evaluation added to them
    evaluated : List SourceUnit → Program → Store → Store → Reloading

  pub data Progress : Type 0 where
    going : Reloading → Progress
    returns : Option LoadError → Progress

  unfoldable pub start_reload : String → Option SourceUnit → Runtime L → Progress
  start_reload source unit r =
      if source == "" then returns (some empty_source) else going (started unit r.persistent_units)

  unfoldable pub after_analysis : Option LoadError × Option (List SourceUnit × Program) → Progress
  after_analysis (error, none) = returns error
  after_analysis (error, some (units, p)) = going (analyzed units p)

  unfoldable pub after_evaluation : List SourceUnit → Program → Store → Bool × Store → Progress
  after_evaluation units p explicit (fine, base) =
      if fine then going (evaluated units p base explicit) else returns (some evaluation_failed)

  -- The next turn of a reload.
  unfoldable pub reload_turn : Ctx → Reloading → Runtime L → Progress × Runtime L
  reload_turn ctx (started unit persistent) r =
      (after_analysis (analyze_units unit persistent r), r)
  reload_turn ctx (analyzed units p) r = (going (copied units p (copy_base r) (copy_explicit r)), r)
  reload_turn ctx (copied units p kept explicit) r =
      (going (counted units p kept explicit (L.options_for p r.external_preds)), count_evaluation r)
  reload_turn ctx (counted units p kept explicit options) r =
      (after_evaluation units p explicit (L.evaluate ctx options p kept), r)
  reload_turn ctx (evaluated units p base explicit) r =
      (returns none, swap_program units p base explicit r)

  -- The turns one after the other with no other call in between; five are enough for a reload that
  -- has started.
  unfoldable pub reload_turns : ℕ → Ctx → Progress × Runtime L → Progress × Runtime L
  reload_turns zero ctx s = s
  reload_turns (suc n) ctx (returns error, r) = (returns error, r)
  reload_turns (suc n) ctx (going b, r) = reload_turns n ctx (reload_turn ctx b r)

  unfoldable pub reload_program :
      Ctx
      → Option LoadError × Option (List SourceUnit × Program)
      → Runtime L
      → Option LoadError × Runtime L
  reload_program ctx (error, none) r = (error, r)
  reload_program ctx (error, some (units, p)) r =
      let (fine, base) = L.evaluate ctx (L.options_for p r.external_preds) p (copy_base r) in
      if fine
      then (none, swap_program units p base (copy_explicit r) (count_evaluation r))
      else (some evaluation_failed, count_evaluation r)

  -- The whole of it, with no other call in between.
  unfoldable pub reload :
      Ctx → String → Option SourceUnit → Runtime L → Option LoadError × Runtime L
  reload ctx source unit r =
      if source == ""
      then (some empty_source, r)
      else reload_program ctx (analyze_units unit r.persistent_units r) r

  -- It is what the turns come to.
  reload_turns-reload :
      (ctx : Ctx) (source : String) (unit : Option SourceUnit) (r : Runtime L)
      → let (error, r') = reload ctx source unit r in
        reload_turns 5 ctx (start_reload source unit r, r) ≡ (returns error, r')
  unfolding reload reload_program start_reload reload_turns reload_turn after_analysis
      after_evaluation
  reload_turns-reload ctx source unit r = ground arith
