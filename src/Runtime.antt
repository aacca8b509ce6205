-- ===== src/Runtime.antt =====
-- internal/engine/runtime.go: `MangleRuntime`, its program, its facts and the cache of evaluated
-- stores. What the mangle library does (parsing, analysis, evaluation, stores of facts) is the
-- record `Library`.
pub mod Key
pub mod Load
pub mod Reload
pub mod Evaluated
pub mod Calls
pub mod Consistent
pub mod Loads
pub mod Queries
pub mod Hits
pub mod Stale
mod Tests
use manglekit.Common.{
  ℕ, zero, suc, ◌+◌, ◌%◌, ◌^◌, String, Bool, true, false, Option, none, some, List, [],
}
use manglekit.Explain.{PredicateSym, Atom, Clause, Terms}

pub record Library : Type 1 where
  pub Constant : Type 0
  pub terms : Terms Constant
  -- source units, analyzed and stratified programs, stores of facts
  pub SourceUnit : Type 0
  pub Program : Type 0
  pub Store : Type 0
  -- a context with its deadline and clock, and the options of an evaluation
  pub Ctx : Type 0
  pub Options : Type 0
  pub clauses : SourceUnit → List (Clause Constant)
  pub parse_atom : String → Option (Atom Constant)
  -- with the declarations of the external predicates: a symbol, its arity, its modes
  pub analyze : List SourceUnit → List (PredicateSym × List String) → Option Program
  pub idb_predicates : Program → List PredicateSym
  pub empty : Store
  pub add : Atom Constant → Store → Store
  pub merge : Store → Store → Store
  pub contains : Store → Atom Constant → Bool
  pub list_predicates : Store → List PredicateSym
  pub get_facts : Store → PredicateSym → List (Atom Constant)
  pub ctx_err : Ctx → Bool
  -- whether an evaluation succeeded, and what it left of the store, which it changes in place
  pub evaluate : Ctx → Options → Program → Store → Bool × Store
  -- `buildEvalOptionsFor`, with the limit of created facts
  pub options_for : Program → List String → Options

module _ (L : Library) where
  -- `program`, `strata` and `predToStratum` are set together.
  pub record Runtime : Type 0 where
    pub program : Option L.Program
    pub base_fact_store : L.Store
    pub explicit_fact_store : L.Store
    pub rule_units : List L.SourceUnit
    pub persistent_units : List L.SourceUnit
    pub persistent_sources : List String
    pub ready : Bool
    pub temporal_enabled : Bool
    pub external_preds : List String
    -- none is the nil map
    pub idb_cache : Option (List (ℕ × L.Store))
    pub base_version : ℕ
    pub program_version : ℕ
    pub disable_idb_cache : Bool
    pub eval_count : ℕ

  abbrev pub new_mangle_runtime : Runtime
  new_mangle_runtime = record {
    program = none;
    base_fact_store = L.empty;
    explicit_fact_store = L.empty;
    rule_units = [];
    persistent_units = [];
    persistent_sources = [];
    ready = false;
    temporal_enabled = false;
    external_preds = [];
    idb_cache = none;
    base_version = 0;
    program_version = 0;
    disable_idb_cache = false;
    eval_count = 0;
  }

-- The next version, a uint64.
abbrev pub bump : ℕ → ℕ
bump v = (v + 1) % 2 ^ 64
