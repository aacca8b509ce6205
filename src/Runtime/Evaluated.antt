-- ===== src/Runtime/Evaluated.antt =====
-- `evaluatedWorkingStore` in its two turns, which other calls may come between: under the lock it
-- looks into the cache and copies what it needs; then it evaluates, and stores the result.
use manglekit.Common.{
  ℕ, ◌+◌, Bool, not, ◌&&◌, Option, none, some, List, [], ◌∷◌, length, map, leb, eqb, if◌then◌else◌,
}
use manglekit.Explain.{Atom}
use manglekit.Runtime.{Library, Runtime}
use manglekit.Runtime.Key.{idb_cache_key}

abbrev pub max_idb_cache_entries : ℕ
max_idb_cache_entries = 8

-- `v, ok := m[key]` and `m[key] = v` of a map with numbers for keys
module _ {V : Type 0} where
  unfoldable pub find : ℕ → List (ℕ × V) → Option V
  find key [] = none
  find key ((k, v) ∷ m) = let rest = find key m in if eqb k key then some v else rest

  unfoldable pub put : ℕ → V → List (ℕ × V) → List (ℕ × V)
  put key v [] = (key, v) ∷ []
  put key v ((k, old) ∷ m) =
      let rest = put key v m in if eqb k key then (k, v) ∷ m else (k, old) ∷ rest

module _ (L : Library) where
  open L use {Constant, Program, Store, Ctx, Options}

  -- What a call keeps between its turns; no key if the runtime does not cache.
  pub record Pending : Type 0 where
    pub facts : List (Atom Constant)
    pub program : Program
    pub base : Store
    pub key : Option ℕ

  pub data Begun : Type 0 where
    refused : Begun
    hit : Store → Begun
    waiting : Pending → Begun

  -- `panicked` is an assignment to an entry of the nil map.
  pub data Finished : Type 0 where
    answer : Store → Finished
    failed : Finished
    panicked : Finished

  abbrev pub is_cacheable : Runtime L → Bool
  is_cacheable r =
      not r.disable_idb_cache && (eqb (length r.external_preds) 0 && not r.temporal_enabled)

  unfoldable pub key_for : List (Atom Constant) → Runtime L → ℕ
  key_for facts r = idb_cache_key r.program_version r.base_version (map L.terms.show_atom facts)

  -- `if r.idbCache == nil { … make … }`
  unfoldable pub made : Option (List (ℕ × Store)) → List (ℕ × Store)
  made none = []
  made (some m) = m

  unfoldable pub begin_with : List (Atom Constant) → Program → Runtime L → Begun × Runtime L
  begin_with facts p r =
      let key = key_for facts r in
      let m = made r.idb_cache in
      if is_cacheable r
      then elim (find key m) [
        | some cached ↦ (hit cached, record r { idb_cache = some m })
        | none ↦ (
          waiting (record { facts = facts; program = p; base = r.base_fact_store; key = some key }),
          record r { idb_cache = some m },
        )
      ]
      else (
        waiting (record { facts = facts; program = p; base = r.base_fact_store; key = none }),
        r,
      )

  -- The first turn. A runtime that is ready has a program.
  unfoldable pub begin : List (Atom Constant) → Runtime L → Begun × Runtime L
  begin facts r =
      let go = λ (p : Program). begin_with facts p r in
      if r.ready then elim r.program [ none ↦ (refused, r) | some p ↦ go p ] else (refused, r)

  abbrev pub add_each : List (Atom Constant) → Store → Store
  add_each [] s = s
  add_each (a ∷ more) s = add_each more (L.add a s)

  -- The copy of the base facts with those of the request.
  abbrev pub working_store : List (Atom Constant) → Store → Store
  working_store facts base = add_each facts (L.merge L.empty base)

  -- The map with an entry more, emptied before if it is full.
  abbrev pub store_entry : ℕ → Store → List (ℕ × Store) → List (ℕ × Store)
  store_entry key s m = if leb max_idb_cache_entries (length m) then (key, s) ∷ [] else put key s m

  unfoldable pub cache_result : Option ℕ → Store → Runtime L → Finished × Runtime L
  cache_result none s r = (answer s, r)
  cache_result (some key) s r = elim r.idb_cache [
    | none ↦ (panicked, r)
    | some m ↦ (answer s, record r { idb_cache = some (store_entry key s m) })
  ]

  -- The second turn. The evaluation works on a copy, and nothing reads the count of evaluations
  -- meanwhile, so both fall together with the entry into the cache.
  unfoldable pub finish : Ctx → Options → Pending → Runtime L → Finished × Runtime L
  finish ctx options q r =
      if L.ctx_err ctx
      then (failed, r)
      else let (fine, s) = L.evaluate ctx options q.program (working_store q.facts q.base) in
        let counted = record r { eval_count = r.eval_count + 1 } in
        if fine then cache_result q.key s counted else (failed, counted)
