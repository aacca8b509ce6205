-- ===== src/Runtime/Calls.antt =====
-- The runtime's calls as one sequence of turns: a reload has six, one for each of its lock sections
-- and one for its evaluation, a query has one that reads and one that evaluates and stores, and other
-- calls hold the lock all along. The turns of several calls come in any order.
use manglekit.Common.{ℕ, zero, suc, String, Bool, Option, none, some, List, [], ◌∷◌}
use manglekit.Explain.{Atom}
use manglekit.Runtime.{Library, Runtime, new_mangle_runtime}
use manglekit.Runtime.Load.{load_facts, add_policy, register_external_predicate, enable_temporal}
use manglekit.Runtime.Reload.{Reloading, Progress, going, returns, start_reload, reload_turn}
use manglekit.Runtime.Evaluated.{Pending, Begun, refused, hit, waiting, begin, finish}

-- The one at a place, and the others.
unfoldable pub pick {ℓ} : {A : Type ℓ} → ℕ → List A → Option (A × List A)
pick n [] = none
pick zero (q ∷ qs) = some (q, qs)
pick (suc n) (q ∷ qs) = elim (pick n qs) [ none ↦ none | some (p, rest) ↦ some (p, q ∷ rest) ]

module _ (L : Library) where
  open L use {Constant, SourceUnit, Program, Store, Ctx, Options}

  -- A call of a thread, or a turn of a query or of a reload.
  pub data Call : Type 0 where
    loads : Ctx → List String → Call
    reloads : String → Option SourceUnit → Call
    -- the next turn of the reload that stands at a place among those that go on
    proceeds : ℕ → Ctx → Call
    adds : Ctx → Bool → String → String → Option SourceUnit → Call
    registers : String → Bool → Call
    enables : Call
    begins : List (Atom Constant) → Call
    -- the query that stands at a place among those that wait
    finishes : ℕ → Ctx → Options → Call

  pub record System : Type 0 where
    pub runtime : Runtime L
    pub queries : List (Pending L)
    pub reloads : List (Reloading L)

  abbrev pub queue : Begun L → List (Pending L) → List (Pending L)
  queue (waiting q) qs = q ∷ qs
  queue refused qs = qs
  queue (hit s) qs = qs

  abbrev pub go_on : Progress L → List (Reloading L) → List (Reloading L)
  go_on (going b) bs = b ∷ bs
  go_on (returns error) bs = bs

  unfoldable pub serve : Call → System → System
  serve (loads ctx facts) s = record s { runtime = (load_facts L ctx facts s.runtime).1 }
  serve (reloads source unit) s = record s {
    reloads = go_on (start_reload L source unit s.runtime) s.reloads;
  }
  serve (proceeds n ctx) s = elim (pick n s.reloads) [
    | none ↦ s
    | some (b, rest) ↦
        let (progress, r) = reload_turn L ctx b s.runtime in
        record s { runtime = r; reloads = go_on progress rest }
  ]
  serve (adds ctx persistent source cleaned unit) s = record s {
    runtime = (add_policy L ctx persistent source cleaned unit s.runtime).1;
  }
  serve (registers name is_nil) s = record s {
    runtime = (register_external_predicate L name is_nil s.runtime).1;
  }
  serve enables s = record s { runtime = enable_temporal L s.runtime }
  serve (begins facts) s =
      let (b, r) = begin L facts s.runtime in record s { runtime = r; queries = queue b s.queries }
  serve (finishes n ctx options) s = elim (pick n s.queries) [
    | none ↦ s
    | some (q, rest) ↦ record s { runtime = (finish L ctx options q s.runtime).1; queries = rest }
  ]

  unfoldable pub serve_all : List Call → System → System
  serve_all [] s = s
  serve_all (c ∷ cs) s = serve_all cs (serve c s)

  abbrev pub new_system : System
  new_system = record { runtime = new_mangle_runtime L; queries = []; reloads = [] }
