-- ===== src/Runtime/Consistent.antt =====
-- The cache under every interleaving of calls: what it holds are evaluations, and for the versions
-- that are current they are evaluations of the program and the base facts that are current.
use manglekit.Common.{
  ℕ, ◌+◌, ◌≤◌, ◌<◌, ◌≡◌, ◌∙◌, true, false, none, some, List, [], ◌∷◌, map, arith, All,
}
use manglekit.Explain.{Atom}
use manglekit.Runtime.{Library, Runtime}
use manglekit.Runtime.Key.{idb_cache_key}
use manglekit.Runtime.Evaluated.{Pending, made, working_store}
use manglekit.Runtime.Calls.{System}

module _ (L : Library) where
  open L use {Constant, SourceUnit, Program, Store, Ctx, Options}

  -- A key of facts, a program and base facts, under versions that are not ahead of the runtime's;
  -- if they are the runtime's, so are the program and the base facts.
  abbrev pub IsFrom : Runtime L → ℕ → List (Atom Constant) → Program → Store → Type 0
  IsFrom r key facts p base =
      (pv : ℕ) × (bv : ℕ) × (key ≡ idb_cache_key pv bv (map L.terms.show_atom facts))
      × (pv ≤ r.program_version)
      × (bv ≤ r.base_version)
      × (pv ≡ r.program_version
          → bv ≡ r.base_version
          → (r.program ≡ some p) × (r.base_fact_store ≡ base))

  -- A store that an evaluation with such a key gave.
  abbrev pub IsEvaluated : Runtime L → ℕ → Store → Type 0
  IsEvaluated r key s =
      (facts : List (Atom Constant)) × (p : Program) × (base : Store) × (ctx : Ctx)
      × (options : Options) × (L.evaluate ctx options p (working_store L facts base) ≡ (true, s))
      × IsFrom r key facts p base

  abbrev pub IsWaiting : Runtime L → Pending L → Type 0
  IsWaiting r q = (key : ℕ) → q.key ≡ some key → IsFrom r key q.facts q.program q.base

  abbrev pub Entries : Runtime L → List (ℕ × Store) → Type 0
  Entries r = All (λ (e : ℕ × Store). IsEvaluated r e.0 e.1)

  -- After `n` calls.
  pub record IsConsistent (n : ℕ) (s : System L) : Type 0 where
    pub entries : Entries s.runtime (made L s.runtime.idb_cache)
    pub waits : All (IsWaiting s.runtime) s.queries
    pub unready : s.runtime.ready ≡ false → (s.queries ≡ []) × (s.runtime.idb_cache ≡ none)
    pub few_programs : s.runtime.program_version ≤ n
    pub few_bases : s.runtime.base_version ≤ n

  -- The same program and facts, or a later version.
  pub data Later (r r' : Runtime L) : Type 0 where
    same :
        r'.program_version ≡ r.program_version
        → r'.base_version ≡ r.base_version
        → r'.program ≡ r.program
        → r'.base_fact_store ≡ r.base_fact_store
        → Later r r'
    newer :
        r.program_version ≤ r'.program_version
        → r.base_version ≤ r'.base_version
        → r.program_version + r.base_version < r'.program_version + r'.base_version
        → Later r r'

  pub IsFrom-Later :
      {r r' : Runtime L} (key : ℕ) (facts : List (Atom Constant)) (p : Program) (base : Store)
      → Later r r'
      → IsFrom r key facts p base
      → IsFrom r' key facts p base
  IsFrom-Later key facts p base (same ev eb ep es) (pv, bv, k, hp, hb, c) = (
    pv,
    bv,
    k,
    omega arith,
    omega arith,
    λ a b. let (x, y) = c (a ∙ ev) (b ∙ eb) in (ep ∙ x, es ∙ y),
  )
  IsFrom-Later key facts p base (newer lp lb lt) (pv, bv, k, hp, hb, c) =
      (pv, bv, k, omega arith, omega arith, λ a b. absurd (omega arith))

  pub Entries-Later :
      {r r' : Runtime L} (m : List (ℕ × Store)) → Later r r' → Entries r m → Entries r' m
  Entries-Later [] l h = tt
  Entries-Later (e ∷ m) l ((facts, p, base, ctx, options, v, f), h) =
      ((facts, p, base, ctx, options, v, IsFrom-Later e.0 facts p base l f), Entries-Later m l h)

  pub waits-Later :
      {r r' : Runtime L} (qs : List (Pending L))
      → Later r r'
      → All (IsWaiting r) qs
      → All (IsWaiting r') qs
  waits-Later [] l h = tt
  waits-Later (q ∷ qs) l (w, h) =
      (λ key e. IsFrom-Later key q.facts q.program q.base l (w key e), waits-Later qs l h)
