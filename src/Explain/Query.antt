-- ===== src/Explain/Query.antt =====
-- `MangleRuntime.Explain` from the evaluated store on: one derivation for each fact that the query
-- matches.
use manglekit.Common.{
  ℕ, zero, suc, ◌+◌, ◌≡◌, ◌≢◌, refl, String, Bool, true, false, ◌&&◌, Option, none, some, List, [],
  ◌∷◌, length, eqb, ltb, arith, if◌then◌else◌, Bool-cases, inl, inr, All,
}
use manglekit.Explain.{
  BaseTerm, variable, rigid, PredicateSym, Atom, Clause, Terms, Subst, DerivationStep,
}
use manglekit.Explain.Unify.{is_ground, term_equals, apply_subst_to_args}
use manglekit.Explain.Prover.{
  Store, fact_step, Search, prove, max_explain_depth, orelse, give, try_rules, limit_step,
  max_explain_steps,
}
use manglekit.Explain.Sound.{IsStore, Derives, prove-Derives}

-- Explanation
pub record Explanation : Type 0 where
  pub query : String
  pub outcome : Bool
  pub derivations : List DerivationStep

-- A search that always gives something.
abbrev Succeeds : {A : Type 0} → Search A → Type 0
Succeeds {A} m = (n : ℕ) → (a : A) × (n' : ℕ) × (m n ≡ (some a, n'))

orelse-Succeeds : {A : Type 0} (m k : Search A) → Succeeds k → Succeeds (orelse m k)
orelse-Succeeds {A} m k h n = go (m n)
  where
    go :
        (r : Option A × ℕ)
        → (a : A) × (n' : ℕ) × ((elim r.0 [ none ↦ k r.1 | some a ↦ (some a, r.1) ]) ≡ (some a, n'))
    go (none, n') = h n'
    go (some a, n') = (a, n', refl)

module _ {C : Type 0} (T : Terms C) where
  -- The arguments of a query against those of a fact, as many.
  unfoldable pub args_match : List (BaseTerm C) → List (BaseTerm C) → Bool
  args_match [] bs = true
  args_match (q ∷ qs) [] = true
  args_match (variable x ∷ qs) (b ∷ bs) = args_match qs bs
  args_match (rigid c ∷ qs) (b ∷ bs) = term_equals T (rigid c) b && args_match qs bs

  unfoldable pub matches : Atom C → Atom C → Bool
  matches q f = eqb (length f.args) (length q.args) && args_match q.args f.args

  -- The facts that the query matches.
  abbrev pub matching : Atom C → List (Atom C) → List (Atom C)
  matching q [] = []
  matching q (f ∷ fs) = let rest = matching q fs in if matches q f then f ∷ rest else rest

  module _ (store : Store C) (rules : List (Clause C)) where
    -- The derivation of a fact, or the fact by itself where the prover gives up.
    unfoldable pub derivation : Atom C → ℕ → DerivationStep × ℕ
    derivation f n =
        let (r, n') = prove T store rules max_explain_depth f n in
        elim r [ none ↦ (fact_step T f, n') | some d ↦ (d, n') ]

    -- The callback of `GetFacts` over the facts, with the prover's count.
    unfoldable pub collect : Atom C → List (Atom C) → ℕ → List DerivationStep
    collect q [] n = []
    collect q (f ∷ fs) n =
        let (d, n') = derivation f n in
        let more = d ∷ collect q fs n' in
        let rest = collect q fs n in if matches q f then more else rest

    unfoldable pub is_some_match : Atom C → List (Atom C) → Bool
    is_some_match q [] = false
    is_some_match q (f ∷ fs) = let rest = is_some_match q fs in if matches q f then true else rest

    unfoldable pub explain : String → Atom C → Explanation
    explain text q =
        let facts = store.get_facts q.predicate in
        record { query = text; outcome = is_some_match q facts; derivations = collect q facts 0 }

    -- Fact by fact, a list of steps derives a list of facts.
    abbrev pub DeriveEach : List (Atom C) → List DerivationStep → Type 0
    DeriveEach [] [] = Unit
    DeriveEach (f ∷ fs) (d ∷ ds) = Derives T store rules f d × DeriveEach fs ds
    DeriveEach [] (d ∷ ds) = ⊥
    DeriveEach (f ∷ fs) [] = ⊥

    abbrev Listed : PredicateSym → List (Atom C) → Type 0
    Listed p =
        All (λ (f : Atom C).
          (f.predicate ≡ p) × (store.contains f ≡ true) × (is_ground f.args ≡ true))

    -- A fact of the store is always derived: the caller's fallback is never taken.
    prove-Succeeds :
        (left : ℕ) (f : Atom C) → store.contains f ≡ true → Succeeds (prove T store rules left f)
    unfolding prove
    prove-Succeeds zero f h n = (limit_step T f, suc n, ground arith)
    prove-Succeeds (suc left) f h n = elim (Bool-cases (ltb max_explain_steps (n + 1))) [
      | inl z ↦ rw z (limit_step T f, n + 1, refl)
      | inr z ↦
          rw (z, h)
            (orelse-Succeeds (try_rules T store (prove T store rules left) rules f)
              (give (fact_step T f)) (λ k. (fact_step T f, k, refl)) (n + 1))
    ]

    derivation-Derives :
        (f : Atom C) (n : ℕ)
        → IsStore store
        → store.contains f ≡ true
        → is_ground f.args ≡ true
        → Derives T store rules f (derivation f n).0
    unfolding derivation
    derivation-Derives f n s h g =
        let (d, n', e) = prove-Succeeds max_explain_depth f h n in
        rw (e, derivation) (prove-Derives T store rules max_explain_depth f s g n n' d e)

    collect-DeriveEach :
        (q : Atom C) (fs : List (Atom C)) (n : ℕ)
        → IsStore store
        → Listed q.predicate fs
        → DeriveEach (matching q fs) (collect q fs n)
    unfolding collect
    collect-DeriveEach q [] n s h = tt
    collect-DeriveEach q (f ∷ fs) n s ((_, hc, hg), h) = elim (Bool-cases (matches q f)) [
      | inl z ↦
          rw (z, collect)
            (derivation-Derives f n s hc hg, collect-DeriveEach q fs (derivation f n).1 s h)
      | inr z ↦ rw (z, collect) (collect-DeriveEach q fs n s h)
    ]

    is_some_match_lem :
        (q : Atom C) (fs : List (Atom C)) → is_some_match q fs ≡ ltb 0 (length (matching q fs))
    unfolding is_some_match
    is_some_match_lem q [] = refl
    is_some_match_lem q (f ∷ fs) = ground (arith, is_some_match_lem q fs)

    -- An explanation derives each fact of the store that the query matches, in the store's order,
    -- and nothing else: each derivation is cut off at a limit, or a fact of the store, or an
    -- instance of a rule whose positive premises are facts of the store that its children derive in
    -- the same sense, and whose ground negated premises are not in the store. Its outcome is true
    -- exactly if some fact matches.
    pub explain-DeriveEach :
        (text : String) (q : Atom C)
        → IsStore store
        → let e = explain text q in
          let facts = matching q (store.get_facts q.predicate) in
          DeriveEach facts e.derivations × (e.outcome ≡ ltb 0 (length facts))
    unfolding explain
    explain-DeriveEach text q s = (
      collect-DeriveEach q (store.get_facts q.predicate) 0 s (s.listed q.predicate),
      is_some_match_lem q (store.get_facts q.predicate),
    )

module _ {C : Type 0} (T : Terms C) where
  -- A query that names a variable twice matches a fact whose arguments in the two places differ, a
  -- fact that is no instance of the query.
  pub matches-repeated_variable :
      (p : PredicateSym) (x : String) (b c : C)
      → b ≢ c
      → let q =
          let a : Atom C = record { predicate = p; args = variable x ∷ variable x ∷ [] } in a in
        let f = let a : Atom C = record { predicate = p; args = rigid b ∷ rigid c ∷ [] } in a in
        (matches T q f ≡ true) × ((θ : Subst C) → apply_subst_to_args θ q.args ≢ f.args)
  unfolding matches args_match apply_subst_to_args
  matches-repeated_variable p x b c ne = (refl, λ θ e. ne (cc e))
