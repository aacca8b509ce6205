-- ===== src/Runtime/Tests.antt =====
-- A library whose stores are lists of facts and whose evaluation adds nothing.
use manglekit.Common.{
  ℕ, ◌≡◌, refl, String, Bool, true, false, none, some, List, [], ◌∷◌, ◌++◌, ◌==◌, eq_iff, arith,
  if◌then◌else◌,
}
use manglekit.Explain.{Atom}
use manglekit.Runtime.{Library, Runtime, new_mangle_runtime}
use manglekit.Runtime.Key.{fnv_write, little_endian, fact_bytes, idb_cache_key}
use manglekit.Runtime.Load.{
  parse_failed, add_facts, load_facts, evaluate_base, edb_declarations, add_unit, add_policy,
}
use manglekit.Runtime.Reload.{
  filter_base_facts, old_predicates, analyze_units, reload_program, reload, start_reload,
  reload_turn, after_analysis, after_evaluation,
}
use manglekit.Runtime.Evaluated.{
  Pending, hit, waiting, panicked, is_cacheable, key_for, made, find, put, begin_with, begin,
  cache_result, finish,
}
use manglekit.Runtime.Calls.{
  Call, loads, reloads, proceeds, adds, begins, finishes, pick, serve, serve_all, new_system,
}
use manglekit.Runtime.Consistent.{IsEvaluated}
use manglekit.Runtime.Hits.{hit-IsEvaluated}
use manglekit.Runtime.Stale.{load_facts-stale, finish-reload}

abbrev fact_of : String → Atom String
fact_of s = record { predicate = record { symbol = s; arity = 0 }; args = [] }

abbrev lists : Library
lists = record {
  Constant = String;
  terms = record {
    equals = λ a b. a == b;
    equals_iff = eq_iff;
    constant_symbol = λ c. some c;
    show_term = λ t. "term";
    show_atom = λ a. a.predicate.symbol;
    show_negated = λ a. a.predicate.symbol;
  };
  SourceUnit = String;
  Program = List String;
  Store = List (Atom String);
  Ctx = Bool;
  Options = ℕ;
  clauses = λ u. [];
  parse_atom = λ s. if s == "bad(" then none else some (fact_of s);
  analyze = λ us ds. some us;
  idb_predicates = λ p. [];
  empty = [];
  add = λ a s. a ∷ s;
  merge = λ s t. t ++ s;
  contains = λ s a. false;
  list_predicates = λ s. [];
  get_facts = λ s p. [];
  ctx_err = λ c. c;
  evaluate = λ c o p s. (true, s);
  options_for = λ p names. 0;
}

-- A policy is added, a fact loaded, and a query made once.
abbrev warm : List (Call lists)
warm =
    adds false false "p" "p" (some "p")
    ∷ loads false ("f" ∷ [])
    ∷ begins []
    ∷ finishes 0 false 0
    ∷ []

abbrev runtime : Runtime lists
runtime = (serve_all lists warm (new_system lists)).runtime

warm_hit : (begin lists [] runtime).0 ≡ hit (fact_of "f" ∷ [])
unfolding serve_all serve pick add_policy add_unit edb_declarations load_facts add_facts
    evaluate_base begin begin_with key_for idb_cache_key fnv_write little_endian fact_bytes made
    find put finish cache_result
warm_hit = refl

hit-IsEvaluated_example : IsEvaluated lists runtime (key_for lists [] runtime) (fact_of "f" ∷ [])
hit-IsEvaluated_example =
    hit-IsEvaluated lists warm [] (fact_of "f" ∷ [])
      (tt, (((fact_of "f", refl), tt), (tt, (tt, tt)))) (omega arith) warm_hit

-- A fact that is loaded after a reload has copied the facts, and before it swaps, is lost.
abbrev overtaken : List (Call lists)
overtaken =
    reloads "n" (some "n")
    ∷ proceeds 0 false
    ∷ proceeds 0 false
    ∷ loads false ("f" ∷ [])
    ∷ proceeds 0 false
    ∷ proceeds 0 false
    ∷ proceeds 0 false
    ∷ []

lost_load :
    let r = (serve_all lists overtaken (new_system lists)).runtime in
    (r.ready ≡ true) × (r.base_fact_store ≡ []) × (r.explicit_fact_store ≡ [])
unfolding serve_all serve pick load_facts add_facts edb_declarations filter_base_facts
    old_predicates analyze_units start_reload reload_turn after_analysis after_evaluation
lost_load = (refl, refl, refl)

load_facts-stale_example :
    let (error, r') = load_facts lists false ("g" ∷ "bad(" ∷ []) runtime in
    (error ≡ some parse_failed)
    × (r'.base_fact_store ≡ fact_of "g" ∷ runtime.base_fact_store)
    × ((begin lists [] r').0 ≡ hit (fact_of "f" ∷ []))
load_facts-stale_example =
    load_facts-stale lists false "g" "bad(" [] (fact_of "g") [] (fact_of "f" ∷ []) runtime refl refl
      warm_hit

abbrev ready_runtime : Runtime lists
ready_runtime = (add_policy lists false false "p" "p" (some "p") (new_mangle_runtime lists)).1

abbrev query : Pending lists
query = record {
  facts = fact_of "q" ∷ [];
  program = "p" ∷ [];
  base = [];
  key = some (key_for lists (fact_of "q" ∷ []) ready_runtime);
}

ready_waiting : (begin lists (fact_of "q" ∷ []) ready_runtime).0 ≡ waiting query
unfolding add_policy add_unit edb_declarations evaluate_base begin begin_with made find
ready_waiting = refl

reload_fine :
    (reload lists false "n" (some "n") (begin lists (fact_of "q" ∷ []) ready_runtime).1).0 ≡ none
unfolding reload reload_program analyze_units edb_declarations filter_base_facts old_predicates
reload_fine = refl

ready_cacheable : is_cacheable lists ready_runtime ≡ true
unfolding add_policy add_unit edb_declarations evaluate_base
ready_cacheable = refl

finish-reload_example :
    (finish lists false 0 query
      (reload lists false "n" (some "n") (begin lists (fact_of "q" ∷ []) ready_runtime).1).1).0
    ≡ panicked
finish-reload_example =
    finish-reload lists (fact_of "q" ∷ []) ready_runtime query false false "n" (some "n") 0
      ready_cacheable ready_waiting reload_fine refl refl
