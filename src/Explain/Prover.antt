-- ===== src/Explain/Prover.antt =====
-- The prover: `prove` and `solvePremises`. The depth that is left makes the recursion structural;
-- the count of steps is the prover's state.
use Prim.Native.String.{◌++◌ as join}
use manglekit.Common.{
  ℕ, zero, suc, ◌+◌, String, Bool, ◌&&◌, ◌||◌, not, ◌==◌, Option, none, some, List, [], ◌∷◌, length,
  lookup, ltb, eqb, Map, if◌then◌else◌,
}
use manglekit.Explain.{
  BaseTerm, variable, rigid, PredicateSym, Atom, Premise, positive, negative, equal, unequal,
  opaque, Clause, Terms, Subst, rule, fact, negation, builtin, depth_limit, DerivationStep, step,
  Derivations, nil, cons,
}
use manglekit.Explain.Unify.{
  is_ground_term, is_ground, apply_subst_term, apply_subst_to_args, instance_of, term_equals,
  unify_atom_args,
}

unfoldable pub same_predicate : PredicateSym → PredicateSym → Bool
same_predicate p q = p.symbol == q.symbol && eqb p.arity q.arity

-- The evaluated store: the library's, with what its `Contains` and `GetFacts` answer.
pub record Store (C : Type 0) : Type 0 where
  pub contains : Atom C → Bool
  pub get_facts : PredicateSym → List (Atom C)

abbrev pub max_explain_depth : ℕ
max_explain_depth = 32

abbrev pub max_explain_steps : ℕ
max_explain_steps = 1000

abbrev pub tier_unknown : String
tier_unknown = "Unknown"

abbrev pub is_known_tier : String → Bool
is_known_tier s = s == "T0" || (s == "T1" || (s == "T2" || s == "T3"))

-- A search with the count of steps.
abbrev pub Search : Type 0 → Type 0
Search A = ℕ → Option A × ℕ

infixl 5 ◌>>=◌
abbrev pub ◌>>=◌ : {A B : Type 0} → Search A → (A → Search B) → Search B
◌>>=◌ m f n = let (r, n') = m n in elim r [ none ↦ (none, n') | some a ↦ f a n' ]

abbrev pub orelse : {A : Type 0} → Search A → Search A → Search A
orelse m k n = let (r, n') = m n in elim r [ none ↦ k n' | some a ↦ (some a, n') ]

abbrev pub fail : {A : Type 0} → Search A
fail n = (none, n)

abbrev pub require : {A : Type 0} → Bool → Search A → Search A
require b m = if b then m else fail

abbrev pub give : {A : Type 0} → A → Search A
give a n = (some a, n)

-- `p.steps++`
abbrev pub tick : Search ℕ
tick n = (some (n + 1), n + 1)

abbrev pub prepend : DerivationStep → Search Derivations → Search Derivations
prepend d m = m >>= λ ds. give (cons d ds)

module _ {C : Type 0} (T : Terms C) where
  abbrev pub bound_symbol : Option (BaseTerm C) → Option String
  bound_symbol (some (rigid c)) = T.constant_symbol c
  bound_symbol t = none

  -- The symbol that an argument of a head offers as its tier, if any.
  unfoldable pub tier_candidate : BaseTerm C → Subst C → Option String
  tier_candidate (variable x) θ = if x == "Tier" then bound_symbol (lookup x θ) else none
  tier_candidate (rigid c) θ = T.constant_symbol c

  unfoldable pub tier_from_subst : List (BaseTerm C) → Subst C → String
  tier_from_subst [] θ = tier_unknown
  tier_from_subst (a ∷ bs) θ =
      let rest = tier_from_subst bs θ in
      elim (tier_candidate a θ) [
        | none ↦ rest
        | some tier ↦ if is_known_tier tier then tier else rest
      ]

  unfoldable pub bindings_to_strings : Subst C → Map String
  bindings_to_strings [] = []
  bindings_to_strings ((x, t) ∷ θ) = (x, T.show_term t) ∷ bindings_to_strings θ

  abbrev pub limit_step : Atom C → DerivationStep
  limit_step f = step (T.show_atom f) "" f.predicate.symbol "" [] depth_limit nil

  abbrev pub fact_step : Atom C → DerivationStep
  fact_step f = step (T.show_atom f) "" f.predicate.symbol (tier_from_subst f.args []) [] fact nil

  abbrev pub rule_step : Atom C → Clause C → Subst C → Derivations → DerivationStep
  rule_step f r θ children =
      step (T.show_atom f) r.text f.predicate.symbol (tier_from_subst r.head.args θ)
        (bindings_to_strings θ) rule children

  abbrev pub negation_step : Atom C → DerivationStep
  negation_step a = step (T.show_negated a) "" a.predicate.symbol "" [] negation nil

  abbrev pub builtin_step : String → DerivationStep
  builtin_step text = step text "" "" "" [] builtin nil

  module _ (store : Store C) where
    module _ (prove_child : Atom C → Search DerivationStep) where
      -- The candidates for an open premise, up to the first with which the rest can be solved.
      unfoldable pub try_candidates :
          (Subst C → Search Derivations)
          → List (BaseTerm C)
          → Subst C
          → List (Atom C)
          → Search Derivations
      try_candidates solve_rest ground θ [] = fail
      try_candidates solve_rest ground θ (c ∷ cs) =
          let later = try_candidates solve_rest ground θ cs in
          if not (eqb (length c.args) (length ground))
          then later
          else elim (unify_atom_args T ground c.args θ) [
            | none ↦ later
            | some trial ↦
                orelse (prove_child c >>= λ child. prepend child (solve_rest trial)) later
          ]

      unfoldable pub solve_premises : List (Premise C) → Subst C → Search Derivations
      solve_premises [] θ = give nil
      solve_premises (positive a ∷ ps) θ =
          let ground = apply_subst_to_args θ a.args in
          let pattern = instance_of θ a in
          let rest = solve_premises ps in
          if is_ground ground
          then require (store.contains pattern)
              (prove_child pattern >>= λ child. prepend child (rest θ))
          else try_candidates rest ground θ (store.get_facts a.predicate)
      solve_premises (negative a ∷ ps) θ =
          let ground = apply_subst_to_args θ a.args in
          let pattern = instance_of θ a in
          let rest = solve_premises ps in
          require (not (is_ground ground && store.contains pattern))
            (prepend (negation_step pattern) (rest θ))
      solve_premises (equal s t ∷ ps) θ =
          let left = apply_subst_term θ s in
          let right = apply_subst_term θ t in
          let rest = solve_premises ps in
          require
            (not ((is_ground_term left && is_ground_term right) && not (term_equals T left right)))
            (prepend (builtin_step (join (T.show_term left) (join " = " (T.show_term right))))
              (rest θ))
      solve_premises (unequal s t ∷ ps) θ =
          let left = apply_subst_term θ s in
          let right = apply_subst_term θ t in
          let rest = solve_premises ps in
          require (not ((is_ground_term left && is_ground_term right) && term_equals T left right))
            (prepend (builtin_step (join (T.show_term left) (join " != " (T.show_term right))))
              (rest θ))
      solve_premises (opaque text ∷ ps) θ =
          let rest = solve_premises ps in prepend (builtin_step text) (rest θ)

      -- The loop over the rules.
      unfoldable pub try_rules : List (Clause C) → Atom C → Search DerivationStep
      try_rules [] f = fail
      try_rules (r ∷ rs) f =
          let later = try_rules rs f in
          if not (same_predicate r.head.predicate f.predicate)
            || (not (eqb (length r.head.args) (length f.args)) || eqb (length r.premises) 0)
          then later
          else elim (unify_atom_args T r.head.args f.args []) [
            | none ↦ later
            | some θ ↦
                orelse (solve_premises r.premises θ >>= λ ds. give (rule_step f r θ ds)) later
          ]

    -- `prove` with the depth that is left of `max_explain_depth`.
    unfoldable pub prove : List (Clause C) → ℕ → Atom C → Search DerivationStep
    prove rules zero f = tick >>= λ steps. give (limit_step f)
    prove rules (suc left) f =
        let search = try_rules (prove rules left) rules f in
        tick >>= λ steps.
        if ltb max_explain_steps steps
        then give (limit_step f)
        else orelse search (require (store.contains f) (give (fact_step f)))
