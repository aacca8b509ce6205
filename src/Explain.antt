-- ===== src/Explain.antt =====
-- internal/engine/explain.go: the derivation of a fact, found again by going back over the rules.
-- The terms, the atoms' text and the store of facts are the mangle library's: parameters.
pub mod Unify
pub mod Prover
pub mod Sound
pub mod Query
mod Tests
use manglekit.Common.{ℕ, String, Bool, true, ◌≡◌, ◌↔◌, Option, List, Map}

-- A base term of the library: a variable by its symbol, or another term.
pub data BaseTerm (C : Type 0) : Type 0 where
  variable : String → BaseTerm C
  rigid : C → BaseTerm C

pub record PredicateSym : Type 0 where
  pub symbol : String
  pub arity : ℕ

pub record Atom (C : Type 0) : Type 0 where
  pub predicate : PredicateSym
  pub args : List (BaseTerm C)

-- A premise; `opaque` is any other by its text.
pub data Premise (C : Type 0) : Type 0 where
  positive : Atom C → Premise C
  negative : Atom C → Premise C
  equal : BaseTerm C → BaseTerm C → Premise C
  unequal : BaseTerm C → BaseTerm C → Premise C
  opaque : String → Premise C

-- A rule with its text.
pub record Clause (C : Type 0) : Type 0 where
  pub head : Atom C
  pub premises : List (Premise C)
  pub text : String

-- What the library does with a term. `constant_symbol` gives the symbol of an `ast.Constant`.
pub record Terms (C : Type 0) : Type 0 where
  pub equals : C → C → Bool
  pub equals_iff : (a b : C) → (equals a b ≡ true) ↔ (a ≡ b)
  pub constant_symbol : C → Option String
  pub show_term : BaseTerm C → String
  pub show_atom : Atom C → String
  pub show_negated : Atom C → String

abbrev pub Subst : Type 0 → Type 0
Subst C = Map (BaseTerm C)

pub data Via : Type 0 where
  rule fact negation builtin depth_limit : Via

-- DerivationStep, with the list of its children.
mutual
  pub data DerivationStep : Type 0 where
    step : (fact rule predicate tier : String) → Map String → Via → Derivations → DerivationStep

  pub data Derivations : Type 0 where
    nil : Derivations
    cons : DerivationStep → Derivations → Derivations
