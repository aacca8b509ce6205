-- ===== src/Runtime/Queries.antt =====
-- The two turns of a query keep the cache consistent.
use mathlib.Core.Path.{subst}
use manglekit.Common.{
  ℕ, zero, suc, ◌+◌, ◌≡◌, refl, sym, true, Option, none, some, List, [], ◌∷◌, length, eqb, leb,
  arith, All, Bool-cases, Option-cases, inl, inr, if_cases, some_eq,
}
use manglekit.Explain.{Atom}
use manglekit.Runtime.{Library, Runtime}
use manglekit.Runtime.Evaluated.{
  find, put, Pending, Begun, refused, hit, waiting, is_cacheable, key_for, made, begin_with, begin,
  Finished, answer, failed, panicked, working_store, store_entry, cache_result, finish,
  max_idb_cache_entries,
}
use manglekit.Runtime.Calls.{begins, finishes, System, queue, pick, serve}
use manglekit.Runtime.Consistent.{IsEvaluated, IsWaiting, Entries, IsConsistent}

module _ {V : Type 0} (P : ℕ × V → Type 0) where
  put-All : (key : ℕ) (v : V) (m : List (ℕ × V)) → P (key, v) → All P m → All P (put key v m)
  unfolding put
  put-All key v [] h a = (h, tt)
  put-All key v ((k, old) ∷ m) h (a, b) = elim (Bool-cases (eqb k key)) [
    | inl z ↦ let e : key ≡ k = ground arith in rw (z, put) (rw e at h, b)
    | inr z ↦ rw (z, put) (a, put-All key v m h b)
  ]

  pub find-All : (key : ℕ) (m : List (ℕ × V)) {v : V} → find key m ≡ some v → All P m → P (key, v)
  unfolding find
  find-All key [] e a = absurd (cc e)
  find-All key ((k, old) ∷ m) {v} e (a, b) = elim (Bool-cases (eqb k key)) [
    | inl z ↦
        let same_key : k ≡ key = ground arith in
        let same_value : old ≡ v = some_eq (rw (z, find) at e) in
        rw (← same_value) (rw same_key at a)
    | inr z ↦ find-All key m (rw (z, find) at e) b
  ]

module _ (L : Library) where
  open L use {Constant, Program, Store, Ctx, Options}

  -- The runtime with the map of the cache made, if it was nil.
  abbrev with_map : Runtime L → Runtime L
  with_map r = record r { idb_cache = some (made L r.idb_cache) }

  -- What a first turn can come to.
  pub data BeginsAs (facts : List (Atom Constant)) (r : Runtime L)
      : Begun L × Runtime L → Type 0 where
    refuses : BeginsAs facts r (refused, r)
    hits :
        (found : Store)
        → r.ready ≡ true
        → find (key_for L facts r) (made L r.idb_cache) ≡ some found
        → BeginsAs facts r (hit found, with_map r)
    waits :
        (p : Program)
        → r.ready ≡ true
        → r.program ≡ some p
        → BeginsAs facts r (
          waiting (record {
            facts = facts;
            program = p;
            base = r.base_fact_store;
            key = some (key_for L facts r);
          }),
          with_map r,
        )
    uncached :
        (p : Program)
        → r.ready ≡ true
        → BeginsAs facts r (
          waiting (record { facts = facts; program = p; base = r.base_fact_store; key = none }),
          r,
        )

  begin_with-BeginsAs :
      (facts : List (Atom Constant)) (p : Program) (r : Runtime L)
      → r.ready ≡ true
      → r.program ≡ some p
      → BeginsAs facts r (begin_with L facts p r)
  unfolding begin_with
  begin_with-BeginsAs facts p r ready e =
      if_cases (BeginsAs facts r) (is_cacheable L r) _ _
        (λ _. elim (Option-cases (find (key_for L facts r) (made L r.idb_cache))) [
          | inl z ↦ rw z (waits p ready e)
          | inr (found, z) ↦ rw z (hits found ready z)
        ])
        λ _. uncached p ready

  pub begin-BeginsAs :
      (facts : List (Atom Constant)) (r : Runtime L) → BeginsAs facts r (begin L facts r)
  unfolding begin
  begin-BeginsAs facts r =
      if_cases (BeginsAs facts r) r.ready _ _ (λ ready. with_program r.program refl ready)
        λ _. refuses
    where
      with_program :
          (o : Option Program)
          → r.program ≡ o
          → r.ready ≡ true
          → BeginsAs facts r (elim o [ none ↦ (refused, r) | some p ↦ begin_with L facts p r ])
      with_program none e ready = refuses
      with_program (some p) e ready = begin_with-BeginsAs facts p r ready e

  begun-IsConsistent :
      (n : ℕ) (facts : List (Atom Constant)) (s : System L) {o : Begun L × Runtime L}
      → IsConsistent L n s
      → BeginsAs facts s.runtime o
      → IsConsistent L n (record s { runtime = o.1; queries = queue L o.0 s.queries })
  unfolding made key_for
  begun-IsConsistent n facts s h refuses = h
  begun-IsConsistent n facts s h (hits found ready e) = record {
    entries = h.entries;
    waits = h.waits;
    unready = λ f. absurd (cc (f, ready));
    few_programs = h.few_programs;
    few_bases = h.few_bases;
  }
  begun-IsConsistent n facts s h (waits p ready e) = record {
    entries = h.entries;
    waits = (
      λ key k. (
        s.runtime.program_version,
        s.runtime.base_version,
        sym (some_eq k),
        omega arith,
        omega arith,
        λ _ _. (e, refl),
      ),
      h.waits,
    );
    unready = λ f. absurd (cc (f, ready));
    few_programs = h.few_programs;
    few_bases = h.few_bases;
  }
  begun-IsConsistent n facts s h (uncached p ready) = record {
    entries = h.entries;
    waits = (λ key k. absurd (cc k), h.waits);
    unready = λ f. absurd (cc (f, ready));
    few_programs = h.few_programs;
    few_bases = h.few_bases;
  }

  pub begin-IsConsistent :
      (n : ℕ) (facts : List (Atom Constant)) (s : System L)
      → IsConsistent L n s
      → IsConsistent L n (serve L (begins facts) s)
  unfolding serve
  begin-IsConsistent n facts s h = begun-IsConsistent n facts s h (begin-BeginsAs facts s.runtime)

  pick-nonempty :
      (k : ℕ) (qs : List (Pending L)) {q : Pending L × List (Pending L)}
      → pick k qs ≡ some q
      → qs ≡ []
      → ⊥
  unfolding pick
  pick-nonempty k [] e f = cc e
  pick-nonempty k (p ∷ qs) e f = cc f

  pick-waits :
      (r : Runtime L) (k : ℕ) (qs : List (Pending L)) {q : Pending L} {rest : List (Pending L)}
      → pick k qs ≡ some (q, rest)
      → All (IsWaiting L r) qs
      → IsWaiting L r q × All (IsWaiting L r) rest
  unfolding pick
  pick-waits r k [] e h = absurd (cc e)
  pick-waits r zero (p ∷ qs) {q} {rest} e (w, h) =
      let same_query : p ≡ q = cc e in
      let same_rest : qs ≡ rest = cc e in (rw same_query at w, rw same_rest at h)
  pick-waits r (suc k) (p ∷ qs) {q} {rest} e (w, h) = elim (Option-cases (pick k qs)) [
    | inl z ↦ absurd (cc (rw (z, pick) at e))
    | inr ((q', rest'), z) ↦
        let (wq, wrest) = pick-waits r k qs {q = q'} {rest = rest'} z h in
        let same_query : q' ≡ q = cc (rw (z, pick) at e) in
        let same_rest : p ∷ rest' ≡ rest = cc (rw (z, pick) at e) in
        (rw same_query at wq, subst (All (IsWaiting L r)) same_rest (w, wrest))
  ]

  -- What a second turn can come to: at most one entry more, the result of its evaluation.
  data FinishesAs (r : Runtime L) : Finished L × Runtime L → Type 0 where
    keeps : (out : Finished L) (count : ℕ) → FinishesAs r (out, record r { eval_count = count })
    enters :
        (key : ℕ) (v : Store) (m : List (ℕ × Store)) (count : ℕ)
        → r.idb_cache ≡ some m
        → IsEvaluated L r key v
        → FinishesAs r
            (answer v, record r { idb_cache = some (store_entry L key v m); eval_count = count })

  cache_result-FinishesAs :
      (r : Runtime L) (key : Option ℕ) (v : Store) (count : ℕ)
      → ((k : ℕ) → key ≡ some k → IsEvaluated L r k v)
      → FinishesAs r (cache_result L key v (record r { eval_count = count }))
  unfolding cache_result
  cache_result-FinishesAs r none v count h = keeps (answer v) count
  cache_result-FinishesAs r (some key) v count h = into r.idb_cache refl
    where
      into :
          (c : Option (List (ℕ × Store)))
          → r.idb_cache ≡ c
          → FinishesAs r (elim c [
            | none ↦ (panicked, record r { eval_count = count })
            | some m ↦ (
              answer v,
              record r { idb_cache = some (store_entry L key v m); eval_count = count },
            )
          ])
      into none e = keeps panicked count
      into (some m) e = enters key v m count e (h key refl)

  finish-FinishesAs :
      (ctx : Ctx) (options : Options) (q : Pending L) (r : Runtime L)
      → IsWaiting L r q
      → FinishesAs r (finish L ctx options q r)
  unfolding finish
  finish-FinishesAs ctx options q r w =
      let run = L.evaluate ctx options q.program (working_store L q.facts q.base) in
      if_cases (FinishesAs r) (L.ctx_err ctx) _ _ (λ _. keeps failed r.eval_count)
        λ _.
          if_cases (FinishesAs r) run.0 _ _
            (λ fine.
              cache_result-FinishesAs r q.key run.1 (r.eval_count + 1)
                λ k e. (q.facts, q.program, q.base, ctx, options, ground arith, w k e))
            λ _. keeps failed (r.eval_count + 1)

  store_entry-Entries :
      (r : Runtime L) (key : ℕ) (v : Store) (m : List (ℕ × Store))
      → IsEvaluated L r key v
      → Entries L r m
      → Entries L r (store_entry L key v m)
  store_entry-Entries r key v m h a =
      if_cases (Entries L r) (leb max_idb_cache_entries (length m)) _ _ (λ _. (h, tt))
        λ _. put-All (λ (e : ℕ × Store). IsEvaluated L r e.0 e.1) key v m h a

  finished-IsConsistent :
      (n : ℕ) (s : System L) (rest : List (Pending L)) {o : Finished L × Runtime L}
      → IsConsistent L n s
      → All (IsWaiting L s.runtime) rest
      → s.runtime.ready ≡ true
      → FinishesAs s.runtime o
      → IsConsistent L n (record s { runtime = o.1; queries = rest })
  unfolding made
  finished-IsConsistent n s rest h w ready (keeps out count) = record {
    entries = h.entries;
    waits = w;
    unready = λ f. absurd (cc (f, ready));
    few_programs = h.few_programs;
    few_bases = h.few_bases;
  }
  finished-IsConsistent n s rest h w ready (enters key v m count e ev) = record {
    entries =
        store_entry-Entries s.runtime key v m ev
          (subst (λ c. Entries L s.runtime (made L c)) e h.entries);
    waits = w;
    unready = λ f. absurd (cc (f, ready));
    few_programs = h.few_programs;
    few_bases = h.few_bases;
  }

  pub finish-IsConsistent :
      (n k : ℕ) (ctx : Ctx) (options : Options) (s : System L)
      → IsConsistent L n s
      → IsConsistent L n (serve L (finishes k ctx options) s)
  unfolding serve
  finish-IsConsistent n k ctx options s h = elim (Option-cases (pick k s.queries)) [
    | inl z ↦ rw (z, serve) h
    | inr ((q, rest), z) ↦
        let (wq, wrest) = pick-waits s.runtime k s.queries {q = q} {rest = rest} z h.waits in
        rw (z, serve)
          (finished-IsConsistent n s rest h wrest
            (elim (Bool-cases s.runtime.ready) [
              | inl y ↦ y
              | inr y ↦ absurd (pick-nonempty k s.queries {q = (q, rest)} z (h.unready y).0)
            ])
            (finish-FinishesAs ctx options q s.runtime wq))
  ]
