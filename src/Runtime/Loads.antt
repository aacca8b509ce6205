-- ===== src/Runtime/Loads.antt =====
-- What each call that loads does to the versions and to the cache.
use manglekit.Common.{
  ◌+◌, ◌^◌, ◌≤◌, ◌<◌, ◌≡◌, refl, String, Bool, true, false, not, Option, none, some, List, [], ◌∷◌,
  arith, All, Option-cases, inl, inr, ◌⊎◌, if_cases, ◌==◌, ◌++◌, contains,
}
use manglekit.Explain.{Atom}
use manglekit.Runtime.{Library, Runtime, bump}
use manglekit.Runtime.Load.{
  LoadError, add_facts, evaluate_base, load_facts, edb_declarations, add_unit, add_policy,
  register_external_predicate,
}
use manglekit.Runtime.Reload.{
  Reloading, started, analyzed, copied, counted, evaluated, reload_turn, swap_program,
}
use manglekit.Runtime.Consistent.{Later, same, newer}

module _ (L : Library) where
  open L use {Constant, SourceUnit, Program, Store, Ctx, Options}

  -- What a call leaves: a runtime that has not gone back, whose versions grew by one at most, and
  -- whose cache is as it was or the nil map.
  pub record Moves (r r' : Runtime L) : Type 0 where
    pub later : Later L r r'
    pub cache : (r'.idb_cache ≡ r.idb_cache) ⊎ (r'.idb_cache ≡ none)
    pub ready : r'.ready ≡ false → r.ready ≡ false
    pub program_step : r'.program_version ≤ r.program_version + 1
    pub base_step : r'.base_version ≤ r.base_version + 1

  abbrev pub AllParse : List String → Type 0
  AllParse = All (λ f. (a : Atom Constant) × (L.parse_atom f ≡ some a))

  abbrev pub MovesTo : Runtime L → Option LoadError × Runtime L → Type 0
  MovesTo r o = Moves r o.1

  version_le : {r r' : Runtime L} → Later L r r' → r.program_version ≤ r'.program_version
  version_le (same a b c d) = omega arith
  version_le (newer a b c) = a

  base_le : {r r' : Runtime L} → Later L r r' → r.base_version ≤ r'.base_version
  base_le (same a b c d) = omega arith
  base_le (newer a b c) = b

  pub Moves-refl : (r : Runtime L) → Moves r r
  Moves-refl r = record {
    later = same refl refl refl refl;
    cache = inl refl;
    ready = λ e. e;
    program_step = omega arith;
    base_step = omega arith;
  }

  counted-Moves : (r : Runtime L) → Moves r (record r { eval_count = r.eval_count + 1 })
  counted-Moves r = record {
    later = same refl refl refl refl;
    cache = inl refl;
    ready = λ e. e;
    program_step = omega arith;
    base_step = omega arith;
  }

  add_facts-AllParse :
      (fs : List String) (base explicit : Store)
      → AllParse fs
      → (add_facts L fs base explicit).0 ≡ true
  unfolding add_facts
  add_facts-AllParse [] base explicit h = refl
  add_facts-AllParse (f ∷ fs) base explicit ((a, e), h) =
      rw (e, add_facts) (add_facts-AllParse fs (L.add a base) (L.add a explicit) h)

  evaluate_base-Moves :
      (ctx : Ctx) (r r' : Runtime L)
      → Moves r r'
      → r.program_version + r.base_version < r'.program_version + r'.base_version
      → Moves r (evaluate_base L ctx r').1
  unfolding evaluate_base
  evaluate_base-Moves ctx r r' m lt = elim (Option-cases r'.program) [
    | inl z ↦ rw (z, evaluate_base) m
    | inr (p, z) ↦
        rw (z, evaluate_base)
          (record {
            later = newer (version_le m.later) (base_le m.later) lt;
            cache = m.cache;
            ready = m.ready;
            program_step = m.program_step;
            base_step = m.base_step;
          })
  ]

  pub load_facts-Moves :
      (ctx : Ctx) (facts : List String) (r : Runtime L)
      → AllParse facts
      → r.base_version + 1 < 2 ^ 64
      → r.ready ≡ true
      → Moves r (load_facts L ctx facts r).1
  unfolding load_facts
  load_facts-Moves ctx facts r parse room ready =
      let all = add_facts-AllParse facts r.base_fact_store r.explicit_fact_store parse in
      let up : bump r.base_version ≡ r.base_version + 1 = omega arith in
      if_cases (MovesTo r) (not (add_facts L facts r.base_fact_store r.explicit_fact_store).0) _ _
        (λ e. absurd (cc (e, all)))
        λ _.
          if_cases (MovesTo r) r.ready _ _
            (λ _.
              evaluate_base-Moves ctx r _
                (record {
                  later = newer (omega arith) (omega arith) (omega arith);
                  cache = inr refl;
                  ready = λ e. e;
                  program_step = omega arith;
                  base_step = omega arith;
                })
                (omega arith))
            λ e. absurd (cc (e, ready))

  swap_program-Moves :
      (units : List SourceUnit) (p : Program) (base explicit : Store) (r : Runtime L)
      → r.program_version + 1 < 2 ^ 64
      → r.base_version + 1 < 2 ^ 64
      → Moves r (swap_program L units p base explicit r)
  swap_program-Moves units p base explicit r hp hb =
      let up : bump r.program_version ≡ r.program_version + 1 = omega arith in
      let up' : bump r.base_version ≡ r.base_version + 1 = omega arith in
      record {
        later = newer (omega arith) (omega arith) (omega arith);
        cache = inr refl;
        ready = λ e. absurd (cc e);
        program_step = omega arith;
        base_step = omega arith;
      }

  -- Only the turn that counts and the swap change the runtime.
  pub reload_turn-Moves :
      (ctx : Ctx) (b : Reloading L) (r : Runtime L)
      → r.program_version + 1 < 2 ^ 64
      → r.base_version + 1 < 2 ^ 64
      → Moves r (reload_turn L ctx b r).1
  unfolding reload_turn
  reload_turn-Moves ctx (started unit persistent) r hp hb = Moves-refl r
  reload_turn-Moves ctx (analyzed units p) r hp hb = Moves-refl r
  reload_turn-Moves ctx (copied units p kept explicit) r hp hb = counted-Moves r
  reload_turn-Moves ctx (counted units p kept explicit options) r hp hb = Moves-refl r
  reload_turn-Moves ctx (evaluated units p base explicit) r hp hb =
      swap_program-Moves units p base explicit r hp hb

  pub add_policy-Moves :
      (ctx : Ctx) (persistent : Bool) (source cleaned : String) (unit : Option SourceUnit)
      (r : Runtime L)
      → r.program_version + 1 < 2 ^ 64
      → Moves r (add_policy L ctx persistent source cleaned unit r).1
  unfolding add_policy add_unit
  add_policy-Moves ctx persistent source cleaned none r hp =
      if_cases (MovesTo r) (source == "") _ _ (λ _. Moves-refl r) λ _. Moves-refl r
  add_policy-Moves ctx persistent source cleaned (some unit) r hp =
      let up : bump r.program_version ≡ r.program_version + 1 = omega arith in
      let units = r.rule_units ++ (unit ∷ []) in
      if_cases (MovesTo r) (source == "") _ _ (λ _. Moves-refl r)
        λ _. elim (Option-cases (L.analyze units (edb_declarations L r.external_preds units))) [
          | inl z ↦ rw (z, add_unit) (Moves-refl r)
          | inr (p, z) ↦
              rw (z, add_unit)
                (evaluate_base-Moves ctx r _
                  (record {
                    later = newer (omega arith) (omega arith) (omega arith);
                    cache = inr refl;
                    ready = λ e. absurd (cc e);
                    program_step = omega arith;
                    base_step = omega arith;
                  })
                  (omega arith))
        ]

  pub register-Moves :
      (name : String) (is_nil : Bool) (r : Runtime L)
      → Moves r (register_external_predicate L name is_nil r).1
  unfolding register_external_predicate
  register-Moves name is_nil r =
      if_cases (MovesTo r) (name == "") _ _ (λ _. Moves-refl r)
        λ _.
          if_cases (MovesTo r) is_nil _ _ (λ _. Moves-refl r)
            λ _.
              if_cases (MovesTo r) (contains r.external_preds name) _ _ (λ _. Moves-refl r)
                λ _. record {
                  later = same refl refl refl refl;
                  cache = inl refl;
                  ready = λ e. e;
                  program_step = omega arith;
                  base_step = omega arith;
                }
