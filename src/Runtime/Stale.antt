-- ===== src/Runtime/Stale.antt =====
-- Where the cache goes wrong: a load that stops at a fact it cannot parse, and a reload between the
-- two turns of a query.
use manglekit.Common.{ℕ, ◌≡◌, refl, String, true, false, Option, none, some, List, ◌∷◌, arith}
use manglekit.Explain.{Atom}
use manglekit.Runtime.{Library, Runtime}
use manglekit.Runtime.Load.{parse_failed, add_facts, load_facts}
use manglekit.Runtime.Reload.{analyze_units, reload_program, reload}
use manglekit.Runtime.Evaluated.{
  Pending, hit, waiting, panicked, is_cacheable, key_for, begin_with, begin, working_store,
  cache_result, finish,
}

module _ (L : Library) where
  open L use {Constant, SourceUnit, Store, Ctx, Options}

  -- What a first turn gives depends on the base facts only where it waits.
  begin-hit :
      (facts : List (Atom Constant)) (r : Runtime L) (base explicit : Store) (found : Store)
      → (begin L facts r).0 ≡ hit found
      → (begin L facts (record r { base_fact_store = base; explicit_fact_store = explicit })).0
        ≡ hit found
  unfolding begin begin_with key_for
  begin-hit facts r base explicit found h = ground arith

  -- A load of a fact that parses and one that does not: it reports the failure, but the first fact
  -- stands in the base facts; and each query that the cache answered before, it still answers with
  -- the store that was evaluated without that fact.
  pub load_facts-stale :
      (ctx : Ctx) (f g : String) (more : List String) (a : Atom Constant)
      (facts : List (Atom Constant)) (found : Store) (r : Runtime L)
      → L.parse_atom f ≡ some a
      → L.parse_atom g ≡ none
      → (begin L facts r).0 ≡ hit found
      → let (error, r') = load_facts L ctx (f ∷ g ∷ more) r in
        (error ≡ some parse_failed)
        × (r'.base_fact_store ≡ L.add a r.base_fact_store)
        × ((begin L facts r').0 ≡ hit found)
  unfolding load_facts add_facts
  load_facts-stale ctx f g more a facts found r pf pg h =
      rw (pf, pg, load_facts, add_facts)
        (
          refl,
          refl,
          begin-hit facts r (L.add a r.base_fact_store) (L.add a r.explicit_fact_store) found h,
        )

  reload-none :
      (ctx : Ctx) (source : String) (unit : Option SourceUnit) (r : Runtime L)
      → (reload L ctx source unit r).0 ≡ none
      → (reload L ctx source unit r).1.idb_cache ≡ none
  unfolding reload reload_program analyze_units
  reload-none ctx source unit r h = ground arith

  finish-nil_map :
      (ctx : Ctx) (options : Options) (q : Pending L) (r : Runtime L) (key : ℕ)
      → q.key ≡ some key
      → r.idb_cache ≡ none
      → L.ctx_err ctx ≡ false
      → (L.evaluate ctx options q.program (working_store L q.facts q.base)).0 ≡ true
      → (finish L ctx options q r).0 ≡ panicked
  unfolding finish cache_result
  finish-nil_map ctx options q r key k c e f = rw (e, f, k, c, finish, cache_result) refl

  begin-key :
      (facts : List (Atom Constant)) (r : Runtime L) (q : Pending L)
      → is_cacheable L r ≡ true
      → (begin L facts r).0 ≡ waiting q
      → q.key ≡ some (key_for L facts r)
  unfolding begin begin_with
  begin-key facts r q c h = ground arith

  -- A query of a runtime that caches, whose policy is reloaded successfully while it evaluates:
  -- if the evaluation succeeds, storing the result panics, unless another query has begun since.
  pub finish-reload :
      (facts : List (Atom Constant)) (r : Runtime L) (q : Pending L) (ctx ctx' : Ctx)
      (source : String) (unit : Option SourceUnit) (options : Options)
      → is_cacheable L r ≡ true
      → (begin L facts r).0 ≡ waiting q
      → let (error, r') = reload L ctx source unit (begin L facts r).1 in
        error ≡ none
        → L.ctx_err ctx' ≡ false
        → (L.evaluate ctx' options q.program (working_store L q.facts q.base)).0 ≡ true
        → (finish L ctx' options q r').0 ≡ panicked
  finish-reload facts r q ctx ctx' source unit options c h e f g =
      finish-nil_map ctx' options q _ (key_for L facts r) (begin-key facts r q c h)
        (reload-none ctx source unit (begin L facts r).1 e) f g
