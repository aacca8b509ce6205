-- ===== src/Runtime/Hits.antt =====
-- What a query that is answered from the cache gets, after any calls.
use mathlib.Core.Path.{subst}
use manglekit.Common.{
  ℕ, suc, ◌+◌, ◌^◌, ◌<◌, ◌≡◌, refl, sym, ◌∙◌, String, false, not, Option, some, List, [], ◌∷◌,
  length, arith, All, Bool-cases, Option-cases, inl, inr, if_cases,
}
use manglekit.Explain.{Atom}
use manglekit.Runtime.{Library, Runtime}
use manglekit.Runtime.Load.{LoadError, add_facts, load_facts}
use manglekit.Runtime.Reload.{Reloading, start_reload, reload_turn}
use manglekit.Runtime.Evaluated.{Begun, hit, find, key_for, made, begin}
use manglekit.Runtime.Calls.{
  Call, loads, reloads, proceeds, adds, registers, enables, begins, finishes, System, pick, go_on,
  serve, serve_all, new_system,
}
use manglekit.Runtime.Consistent.{
  IsEvaluated, IsWaiting, Entries, IsConsistent, same, Entries-Later, waits-Later,
}
use manglekit.Runtime.Loads.{
  Moves, Moves-refl, AllParse, load_facts-Moves, reload_turn-Moves, add_policy-Moves,
  register-Moves,
}
use manglekit.Runtime.Queries.{
  find-All, BeginsAs, hits, waits, uncached, refuses, begin-BeginsAs, begin-IsConsistent,
  finish-IsConsistent,
}

module _ (L : Library) where
  open L use {Constant, Store, Ctx}

  -- Facts that are loaded parse.
  abbrev pub IsParsed : Call L → Type 0
  IsParsed (loads ctx facts) = AllParse L facts
  IsParsed (reloads source unit) = Unit
  IsParsed (proceeds k ctx) = Unit
  IsParsed (adds ctx persistent source cleaned unit) = Unit
  IsParsed (registers name is_nil) = Unit
  IsParsed enables = Unit
  IsParsed (begins facts) = Unit
  IsParsed (finishes k ctx options) = Unit

  moved-Entries :
      (r r' : Runtime L)
      → Moves L r r'
      → Entries L r (made L r.idb_cache)
      → Entries L r' (made L r'.idb_cache)
  unfolding made
  moved-Entries r r' m h = elim m.cache [
    | inl e ↦
        subst (λ c. Entries L r' (made L c)) (sym e)
          (Entries-Later L (made L r.idb_cache) m.later h)
    | inr e ↦ subst (λ c. Entries L r' (made L c)) (sym e) tt
  ]

  moved-IsConsistent :
      (n : ℕ) (s : System L) (r' : Runtime L) (bs : List (Reloading L))
      → IsConsistent L n s
      → Moves L s.runtime r'
      → IsConsistent L (suc n) (record { runtime = r'; queries = s.queries; reloads = bs })
  moved-IsConsistent n s r' bs h m = record {
    entries = moved-Entries s.runtime r' m h.entries;
    waits = waits-Later L s.queries m.later h.waits;
    unready = λ f. let (q, c) = h.unready (m.ready f) in (q, ground (arith, m.cache));
    few_programs = omega (arith, m.program_step, h.few_programs);
    few_bases = omega (arith, m.base_step, h.few_bases);
  }

  next-IsConsistent : {n : ℕ} {s : System L} → IsConsistent L n s → IsConsistent L (suc n) s
  next-IsConsistent h = record {
    entries = h.entries;
    waits = h.waits;
    unready = h.unready;
    few_programs = omega (arith, h.few_programs);
    few_bases = omega (arith, h.few_bases);
  }

  -- Before the first program there is nothing that a load could make stale.
  idle-IsConsistent :
      (n : ℕ) (s : System L) (r' : Runtime L)
      → IsConsistent L n s
      → s.runtime.ready ≡ false
      → r'.idb_cache ≡ s.runtime.idb_cache
      → r'.program_version ≡ s.runtime.program_version
      → r'.base_version ≡ s.runtime.base_version
      → IsConsistent L (suc n) (record s { runtime = r' })
  unfolding made
  idle-IsConsistent n s r' h f ec ep eb =
      let (no_queries, no_cache) = h.unready f in
      record {
        entries = subst (λ c. Entries L r' (made L c)) (sym (ec ∙ no_cache)) tt;
        waits = subst (All (IsWaiting L r')) (sym no_queries) tt;
        unready = λ _. (no_queries, ec ∙ no_cache);
        few_programs = omega (arith, h.few_programs);
        few_bases = omega (arith, h.few_bases);
      }

  unready_load-IsConsistent :
      (n : ℕ) (ctx : Ctx) (facts : List String) (s : System L)
      → IsConsistent L n s
      → s.runtime.ready ≡ false
      → IsConsistent L (suc n) (record s { runtime = (load_facts L ctx facts s.runtime).1 })
  unfolding load_facts
  unready_load-IsConsistent n ctx facts s h f =
      let r = s.runtime in
      let P =
        λ (o : Option LoadError × Runtime L). IsConsistent L (suc n) (record s { runtime = o.1 }) in
      let (parsed, base, explicit) = add_facts L facts r.base_fact_store r.explicit_fact_store in
      let added = record r { base_fact_store = base; explicit_fact_store = explicit } in
      let still = idle-IsConsistent n s added h f refl refl refl in
      if_cases P (not parsed) _ _ (λ _. still)
        λ _. if_cases P r.ready _ _ (λ ready. absurd (cc (ready, f))) λ _. still

  serve-IsConsistent :
      (n : ℕ) (c : Call L) (s : System L)
      → IsParsed c
      → n + 1 < 2 ^ 64
      → IsConsistent L n s
      → IsConsistent L (suc n) (serve L c s)
  unfolding serve
  serve-IsConsistent n (loads ctx facts) s p room h = elim (Bool-cases s.runtime.ready) [
    | inl z ↦
        moved-IsConsistent n s _ s.reloads h
          (load_facts-Moves L ctx facts s.runtime p (omega (arith, h.few_bases)) z)
    | inr z ↦ unready_load-IsConsistent n ctx facts s h z
  ]
  serve-IsConsistent n (reloads source unit) s p room h =
      let started = go_on L (start_reload L source unit s.runtime) s.reloads in
      moved-IsConsistent n s s.runtime started h (Moves-refl L s.runtime)
  serve-IsConsistent n (proceeds k ctx) s p room h = elim (Option-cases (pick k s.reloads)) [
    | inl z ↦ rw (z, serve) (next-IsConsistent h)
    | inr ((b, rest), z) ↦
        let (progress, r) = reload_turn L ctx b s.runtime in
        rw (z, serve)
          (moved-IsConsistent n s r (go_on L progress rest) h (
            reload_turn-Moves L ctx b s.runtime (omega (arith, h.few_programs))
              (omega (arith, h.few_bases))))
  ]
  serve-IsConsistent n (adds ctx persistent source cleaned unit) s p room h =
      moved-IsConsistent n s _ s.reloads h (
        add_policy-Moves L ctx persistent source cleaned unit s.runtime
          (omega (arith, h.few_programs)))
  serve-IsConsistent n (registers name is_nil) s p room h =
      moved-IsConsistent n s _ s.reloads h (register-Moves L name is_nil s.runtime)
  serve-IsConsistent n enables s p room h = moved-IsConsistent n s _ s.reloads h (record {
    later = same refl refl refl refl;
    cache = inl refl;
    ready = λ e. e;
    program_step = omega arith;
    base_step = omega arith;
  })
  serve-IsConsistent n (begins facts) s p room h =
      next-IsConsistent (begin-IsConsistent L n facts s h)
  serve-IsConsistent n (finishes k ctx options) s p room h =
      next-IsConsistent (finish-IsConsistent L n k ctx options s h)

  serve_all-IsConsistent :
      (n : ℕ) (cs : List (Call L)) (s : System L)
      → All IsParsed cs
      → n + length cs < 2 ^ 64
      → IsConsistent L n s
      → IsConsistent L (n + length cs) (serve_all L cs s)
  unfolding serve_all
  serve_all-IsConsistent n [] s p room h = subst (λ k. IsConsistent L k s) (omega arith) h
  serve_all-IsConsistent n (c ∷ cs) s (p, ps) room h =
      subst (λ k. IsConsistent L k (serve_all L cs (serve L c s))) (omega arith)
        (serve_all-IsConsistent (suc n) cs (serve L c s) ps (omega arith)
          (serve-IsConsistent n c s p (omega arith) h))

  begun-find :
      (facts : List (Atom Constant)) (r : Runtime L) {o : Begun L × Runtime L} (found : Store)
      → BeginsAs L facts r o
      → o.0 ≡ hit found
      → find (key_for L facts r) (made L r.idb_cache) ≡ some found
  begun-find facts r found refuses e = absurd (cc e)
  begun-find facts r found (hits v ready z) e = cc (z, e)
  begun-find facts r found (waits p ready z) e = absurd (cc e)
  begun-find facts r found (uncached p ready) e = absurd (cc e)

  -- After any fewer than 2 ^ 64 turns of calls on a new runtime, interleaved in any way, in which
  -- the facts that are loaded parse (a reload has a turn for each of its lock sections and its
  -- evaluation, a query one that reads and one that evaluates and stores, any other call one): a
  -- query that is answered from the cache gets a store that a successful evaluation gave, of facts,
  -- a program and base facts that have the query's key under versions that the runtime has had; if
  -- these are its current versions, they are its current program and its current base facts.
  pub hit-IsEvaluated :
      (cs : List (Call L)) (facts : List (Atom Constant)) (found : Store)
      → All IsParsed cs
      → length cs < 2 ^ 64
      → let r = (serve_all L cs (new_system L)).runtime in
        (begin L facts r).0 ≡ hit found → IsEvaluated L r (key_for L facts r) found
  unfolding made
  hit-IsEvaluated cs facts found p room e =
      let r = (serve_all L cs (new_system L)).runtime in
      let new : IsConsistent L 0 (new_system L) = record {
        entries = tt;
        waits = tt;
        unready = λ _. (refl, refl);
        few_programs = omega arith;
        few_bases = omega arith;
      } in
      let c = serve_all-IsConsistent 0 cs (new_system L) p (omega arith) new in
      find-All (λ (x : ℕ × Store). IsEvaluated L r x.0 x.1) (key_for L facts r) (made L r.idb_cache)
        (begun-find facts r found (begin-BeginsAs L facts r) e) c.entries
