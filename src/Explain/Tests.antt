-- ===== src/Explain/Tests.antt =====
-- A rule that halts whatever is flagged and not waived, over a store of two facts.
use manglekit.Common.{
  ◌≡◌, refl, String, ◌&&◌, ◌||◌, ◌==◌, eq_iff, some, [], ◌∷◌, ltb, length, lookup, insert,
  if◌then◌else◌, Bool-cases, inl, inr,
}
use manglekit.Explain.{
  BaseTerm, variable, rigid, PredicateSym, Atom, positive, negative, Clause, Terms, rule, fact,
  negation, step, nil, cons,
}
use manglekit.Explain.Unify.{
  term_equals, apply_subst_to_args, unify_atom_args, unify_term, is_ground, is_ground_term,
  apply_subst_term,
}
use manglekit.Explain.Prover.{
  same_predicate, Store, try_rules, solve_premises, prove, tier_candidate, tier_from_subst,
  bindings_to_strings,
}
use manglekit.Explain.Sound.{IsStore, same_predicate→eq}
use manglekit.Explain.Query.{
  args_match, matches, matching, derivation, collect, explain, DeriveEach, explain-DeriveEach,
}

abbrev texts : Terms String
texts = record {
  equals = λ a b. a == b;
  equals_iff = eq_iff;
  constant_symbol = λ c. some c;
  show_term = λ t. "term";
  show_atom = λ a. a.predicate.symbol;
  show_negated = λ a. a.predicate.symbol;
}

abbrev sym_of : String → PredicateSym
sym_of s = record { symbol = s; arity = 1 }

abbrev atom : String → BaseTerm String → Atom String
atom s t = record { predicate = sym_of s; args = t ∷ [] }

abbrev flagged : Atom String
flagged = atom "flagged" (rigid "Req")

abbrev halted : Atom String
halted = atom "halt" (rigid "Req")

abbrev two_facts : Store String
two_facts = record {
  contains = λ f.
      (same_predicate f.predicate (sym_of "flagged") || same_predicate f.predicate (sym_of "halt"))
      && args_match texts (rigid "Req" ∷ []) f.args;
  get_facts = λ p.
      if same_predicate (sym_of "flagged") p
      then flagged ∷ []
      else if same_predicate (sym_of "halt") p
      then halted ∷ []
      else [];
}

abbrev halting : Clause String
halting = record {
  head = atom "halt" (variable "X");
  premises =
      positive (atom "flagged" (variable "X")) ∷ negative (atom "waived" (variable "X")) ∷ [];
  text = "halt(X) :- flagged(X), !waived(X).";
}

abbrev halts : Atom String
halts = atom "halt" (variable "E")

derived_by_rule :
    (explain texts two_facts (halting ∷ []) "halt(E)" halts).derivations
    ≡ step "halt" "halt(X) :- flagged(X), !waived(X)." "halt" "Unknown" (("X", "term") ∷ []) rule (
        cons
          (step "flagged" "" "flagged" "Unknown" [] fact nil)
          (cons (step "waived" "" "waived" "" [] negation nil) nil))
      ∷ []
unfolding explain collect derivation matches args_match prove try_rules solve_premises
    same_predicate unify_atom_args unify_term term_equals is_ground is_ground_term
    apply_subst_to_args apply_subst_term lookup insert tier_from_subst tier_candidate
    bindings_to_strings
derived_by_rule = refl

-- A rule that rests on itself: the fact is derived by it down to the limit of the depth.
circular : Clause String
circular = record {
  head = atom "flagged" (variable "X");
  premises = positive (atom "flagged" (variable "X")) ∷ [];
  text = "flagged(X) :- flagged(X).";
}

two_facts-IsStore : IsStore two_facts
unfolding same_predicate args_match term_equals is_ground is_ground_term
two_facts-IsStore = record {
  listed = λ p. elim (Bool-cases (same_predicate (sym_of "flagged") p)) [
    | inl z ↦ rw z ((same_predicate→eq (sym_of "flagged") p z, refl, refl), tt)
    | inr z ↦ elim (Bool-cases (same_predicate (sym_of "halt") p)) [
      | inl y ↦ rw (z, y) ((same_predicate→eq (sym_of "halt") p y, refl, refl), tt)
      | inr y ↦ rw (z, y) tt
    ]
  ];
}

explain-DeriveEach_example :
    let e = explain texts two_facts (halting ∷ []) "halt(E)" halts in
    let facts = matching texts halts (two_facts.get_facts halts.predicate) in
    DeriveEach texts two_facts (halting ∷ []) facts e.derivations
    × (e.outcome ≡ ltb 0 (length facts))
explain-DeriveEach_example =
    explain-DeriveEach texts two_facts (halting ∷ []) "halt(E)" halts two_facts-IsStore
