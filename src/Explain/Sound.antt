-- ===== src/Explain/Sound.antt =====
-- A derivation that the prover finds is one of the rules and the store.
use mathlib.Core.Path.{subst}
use manglekit.Common.{
  ℕ, zero, suc, ◌≡◌, ◌≢◌, refl, sym, ap, ◌∙◌, String, Bool, true, false, ◌&&◌, ◌||◌, not, Option,
  none, some, List, [], ◌∷◌, length, lookup, eqb, ltb, arith, Option-cases, inl, inr, some_eq, All,
  eq_iff, if◌then◌else◌,
}
use manglekit.Explain.{
  BaseTerm, PredicateSym, Atom, Premise, positive, negative, equal, unequal, opaque, Clause, Terms,
  Subst, DerivationStep, Derivations, nil, cons,
}
use manglekit.Explain.Unify.{
  is_ground_term, is_ground, apply_subst_term, apply_subst_to_args, instance_of, term_equals,
  unify_atom_args, Extends, IsGrounded, term_equals→eq, term_equals_refl, apply_subst_to_args-twice,
  unify_atom_args_lem,
}
use manglekit.Explain.Prover.{
  same_predicate, Store, limit_step, fact_step, rule_step, negation_step, Search, fail, give,
  prepend, tick, max_explain_steps, require, orelse, ◌>>=◌, try_candidates, solve_premises,
  try_rules, prove,
}

-- What the library's store promises: it enumerates the facts of a predicate that it contains, and
-- facts are ground.
pub record IsStore {C : Type 0} (store : Store C) : Type 0 where
  pub listed :
      (p : PredicateSym)
      → All
          (λ (f : Atom C).
            (f.predicate ≡ p) × (store.contains f ≡ true) × (is_ground f.args ≡ true))
          (store.get_facts p)

-- One of a list.
pub data In {A : Type 0} (a : A) : List A → Type 0 where
  here : {b : A} {bs : List A} → b ≡ a → In a (b ∷ bs)
  there : {b : A} {bs : List A} → In a bs → In a (b ∷ bs)

-- What a search gives, if it gives anything, satisfies `P`.
abbrev Ensures : {A : Type 0} → (A → Type 0) → Search A → Type 0
Ensures {A} P m = (n n' : ℕ) (a : A) → m n ≡ (some a, n') → P a

module _ {A : Type 0} (P : A → Type 0) where
  fail-Ensures : Ensures P fail
  fail-Ensures n n' a e = absurd (cc)

  give-Ensures : (b : A) → P b → Ensures P (give b)
  give-Ensures b h n n' a e = subst P (some_eq (ap (λ (r : Option A × ℕ). r.0) e)) h

  require-Ensures : (b : Bool) (m : Search A) → (b ≡ true → Ensures P m) → Ensures P (require b m)
  require-Ensures true m h = h refl
  require-Ensures false m h = λ n n' a e. absurd (cc)

  if-Ensures :
      (b : Bool) (m k : Search A)
      → (b ≡ true → Ensures P m)
      → (b ≡ false → Ensures P k)
      → Ensures P (if b then m else k)
  if-Ensures true m k hm hk = hm refl
  if-Ensures false m k hm hk = hk refl

  orelse-Ensures : (m k : Search A) → Ensures P m → Ensures P k → Ensures P (orelse m k)
  orelse-Ensures m k hm hk n n' a e = go (m n).0 (m n).1 refl e
    where
      go :
          (r : Option A) (n1 : ℕ)
          → m n ≡ (r, n1)
          → (elim r [ none ↦ k n1 | some b ↦ (some b, n1) ]) ≡ (some a, n')
          → P a
      go none n1 z e = hk n1 n' a e
      go (some b) n1 z e = hm n n' a (z ∙ e)

  bind-Ensures :
      {B : Type 0} (Q : B → Type 0) (m : Search A) (f : A → Search B)
      → Ensures P m
      → ((a : A) → P a → Ensures Q (f a))
      → Ensures Q (m >>= f)
  bind-Ensures {B} Q m f hm hf n n' b e = go (m n).0 (m n).1 refl e
    where
      go :
          (r : Option A) (n1 : ℕ)
          → m n ≡ (r, n1)
          → ◌≡◌ {A = Option B × ℕ} (elim r [ none ↦ (none, n1) | some a ↦ f a n1 ]) (some b, n')
          → Q b
      go none n1 z e = absurd (cc)
      go (some a) n1 z e = hf a (hm n n1 a z) n1 n' b e

not_ne : (m n : ℕ) → not (eqb m n) ≡ false → n ≡ m
not_ne m n h = ground arith

not_both : (a b : Bool) → not (a && b) ≡ true → a ≡ true → b ≡ false
not_both a b h g = ground arith

both_then : (a b c : Bool) → not ((a && b) && not c) ≡ true → a ≡ true → b ≡ true → c ≡ true
both_then a b c h ga gb = ground arith

both_not : (a b c : Bool) → not ((a && b) && c) ≡ true → a ≡ true → b ≡ true → c ≡ false
both_not a b c h ga gb = ground arith

empty-IsGrounded : {C : Type 0} → IsGrounded {C = C} []
unfolding lookup
empty-IsGrounded x t e = absurd (cc)

first_false : (a c : Bool) → (not a || c) ≡ false → a ≡ true
first_false a c h = ground arith

second_false : (a b c : Bool) → (a || (b || c)) ≡ false → b ≡ false
second_false a b c h = ground arith

pub same_predicate→eq : (p q : PredicateSym) → same_predicate p q ≡ true → p ≡ q
unfolding same_predicate
same_predicate→eq p q h = ground (arith, eq_iff p.symbol q.symbol)

module _ {C : Type 0} (T : Terms C) (store : Store C) (rules : List (Clause C)) where
  -- A step derives a fact if it is cut off at a limit, if the fact stands in the store, or if it is
  -- the head of a rule under a substitution under which the children derive the rule's premises.
  mutual
    pub data Derives : Atom C → DerivationStep → Type 0 where
      cut_off : {f : Atom C} {d : DerivationStep} → d ≡ limit_step T f → Derives f d
      stored :
          {f : Atom C} {d : DerivationStep}
          → d ≡ fact_step T f
          → store.contains f ≡ true
          → Derives f d
      by_rule :
          {f : Atom C} {d : DerivationStep} (r : Clause C) (θ : Subst C) (ds : Derivations)
          → d ≡ rule_step T f r θ ds
          → In r rules
          → r.head.predicate ≡ f.predicate
          → apply_subst_to_args θ r.head.args ≡ f.args
          → DerivesAll θ r.premises ds
          → Derives f d

    pub data DerivesAll : Subst C → List (Premise C) → Derivations → Type 0 where
      done : {θ : Subst C} → DerivesAll θ [] nil
      -- a fact of the store that is the premise under a substitution that extends this one
      holds :
          {θ : Subst C} {a : Atom C} {ps : List (Premise C)} {d : DerivationStep} {ds : Derivations}
          (θ' : Subst C) (f : Atom C)
          → Extends θ θ'
          → instance_of θ' a ≡ f
          → store.contains f ≡ true
          → Derives f d
          → DerivesAll θ' ps ds
          → DerivesAll θ (positive a ∷ ps) (cons d ds)
      absent :
          {θ : Subst C} {a : Atom C} {ps : List (Premise C)} {d : DerivationStep} {ds : Derivations}
          → d ≡ negation_step T (instance_of θ a)
          → (is_ground (instance_of θ a).args ≡ true → store.contains (instance_of θ a) ≡ false)
          → DerivesAll θ ps ds
          → DerivesAll θ (negative a ∷ ps) (cons d ds)
      same :
          {θ : Subst C} {s t : BaseTerm C} {ps : List (Premise C)} {d : DerivationStep}
          {ds : Derivations}
          → (is_ground_term (apply_subst_term θ s) ≡ true
              → is_ground_term (apply_subst_term θ t) ≡ true
              → apply_subst_term θ s ≡ apply_subst_term θ t)
          → DerivesAll θ ps ds
          → DerivesAll θ (equal s t ∷ ps) (cons d ds)
      other :
          {θ : Subst C} {s t : BaseTerm C} {ps : List (Premise C)} {d : DerivationStep}
          {ds : Derivations}
          → (is_ground_term (apply_subst_term θ s) ≡ true
              → is_ground_term (apply_subst_term θ t) ≡ true
              → apply_subst_term θ s ≢ apply_subst_term θ t)
          → DerivesAll θ ps ds
          → DerivesAll θ (unequal s t ∷ ps) (cons d ds)
      unchecked :
          {θ : Subst C} {text : String} {ps : List (Premise C)} {d : DerivationStep}
          {ds : Derivations}
          → DerivesAll θ ps ds
          → DerivesAll θ (opaque text ∷ ps) (cons d ds)

  ne_of_test : (s t : BaseTerm C) → term_equals T s t ≡ false → s ≢ t
  ne_of_test s t h e = cc (h, ap (term_equals T s) e, term_equals_refl T s)

  prepend-Ensures :
      (P Q : Derivations → Type 0) (d : DerivationStep) (m : Search Derivations)
      → Ensures P m
      → ((ds : Derivations) → P ds → Q (cons d ds))
      → Ensures Q (prepend d m)
  prepend-Ensures P Q d m h k =
      bind-Ensures P Q m (λ ds. give (cons d ds)) h (λ ds p. give-Ensures Q (cons d ds) (k ds p))

  module _ (prove_child : Atom C → Search DerivationStep) (is_store : IsStore store)
      (child_ok : (f : Atom C)
        → is_ground f.args ≡ true
        → Ensures (Derives f) (prove_child f)) where
    try_candidates-Derives :
        (solve_rest : Subst C → Search Derivations) (a : Atom C) (ps : List (Premise C))
        (θ : Subst C) (cs : List (Atom C))
        → IsGrounded θ
        → ((θ' : Subst C) → IsGrounded θ' → Ensures (DerivesAll θ' ps) (solve_rest θ'))
        → All
            (λ (f : Atom C).
              (f.predicate ≡ a.predicate) × (store.contains f ≡ true) × (is_ground f.args ≡ true))
            cs
        → Ensures
            (DerivesAll θ (positive a ∷ ps))
            (try_candidates T store prove_child solve_rest (apply_subst_to_args θ a.args) θ cs)
    unfolding try_candidates
    try_candidates-Derives rest a ps θ [] g h l = fail-Ensures _
    try_candidates-Derives rest a ps θ (c ∷ cs) g h ((lp, lc, lg), l) =
        let P = DerivesAll θ (positive a ∷ ps) in
        let ground = apply_subst_to_args θ a.args in
        let later = try_candidates-Derives rest a ps θ cs g h l in
        if-Ensures P (not (eqb (length c.args) (length ground))) _ _ (λ _. later)
          λ same_length. elim (Option-cases (unify_atom_args T ground c.args θ)) [
            | inl z ↦ rw z later
            | inr (trial, z) ↦
                let (ext, gr, e) =
                  unify_atom_args_lem T ground c.args θ trial (not_ne _ _ same_length) g lg z in
                rw z (
                  orelse-Ensures P _ _
                    (bind-Ensures (Derives c) P (prove_child c) _ (child_ok c lg) λ d k.
                      prepend-Ensures (DerivesAll trial ps) P d (rest trial) (h trial gr) λ ds ks.
                        holds trial c ext
                          (cc (lp, e, apply_subst_to_args-twice θ trial a.args ext g)) lc k ks)
                    later)
          ]

    solve_premises-Derives :
        (ps : List (Premise C)) (θ : Subst C)
        → IsGrounded θ
        → Ensures (DerivesAll θ ps) (solve_premises T store prove_child ps θ)
    unfolding solve_premises
    solve_premises-Derives [] θ g = give-Ensures (DerivesAll θ []) nil done
    solve_premises-Derives (positive a ∷ ps) θ g =
        let P = DerivesAll θ (positive a ∷ ps) in
        if-Ensures P (is_ground (apply_subst_to_args θ a.args)) _ _
          (λ gr. require-Ensures P (store.contains (instance_of θ a)) _ λ stands.
            bind-Ensures (Derives (instance_of θ a)) P (prove_child (instance_of θ a)) _
              (child_ok (instance_of θ a) gr)
              λ d k.
                prepend-Ensures (DerivesAll θ ps) P d _ (solve_premises-Derives ps θ g)
                  λ ds ks. holds θ (instance_of θ a) (λ x t e. e) refl stands k ks)
          (λ _.
            try_candidates-Derives (solve_premises T store prove_child ps) a ps θ
              (store.get_facts a.predicate) g (solve_premises-Derives ps)
              (is_store.listed a.predicate))
    solve_premises-Derives (negative a ∷ ps) θ g =
        let P = DerivesAll θ (negative a ∷ ps) in
        let t = is_ground (instance_of θ a).args in
        require-Ensures P (not (t && store.contains (instance_of θ a))) _ λ free.
          prepend-Ensures (DerivesAll θ ps) P _ _ (solve_premises-Derives ps θ g)
            λ ds k. absent refl (not_both t (store.contains (instance_of θ a)) free) k
    solve_premises-Derives (equal s t ∷ ps) θ g =
        let P = DerivesAll θ (equal s t ∷ ps) in
        let left = apply_subst_term θ s in
        let right = apply_subst_term θ t in
        require-Ensures P
          (not ((is_ground_term left && is_ground_term right) && not (term_equals T left right))) _
          λ free. prepend-Ensures (DerivesAll θ ps) P _ _ (solve_premises-Derives ps θ g) λ ds k.
            same
              (λ gl gr.
                term_equals→eq T left right (both_then _ _ (term_equals T left right) free gl gr))
              k
    solve_premises-Derives (unequal s t ∷ ps) θ g =
        let P = DerivesAll θ (unequal s t ∷ ps) in
        let left = apply_subst_term θ s in
        let right = apply_subst_term θ t in
        require-Ensures P
          (not ((is_ground_term left && is_ground_term right) && term_equals T left right)) _
          λ free.
            prepend-Ensures (DerivesAll θ ps) P _ _ (solve_premises-Derives ps θ g)
              λ ds k. other (λ gl gr. ne_of_test left right (both_not _ _ _ free gl gr)) k
    solve_premises-Derives (opaque text ∷ ps) θ g =
        prepend-Ensures (DerivesAll θ ps) (DerivesAll θ (opaque text ∷ ps)) _ _
          (solve_premises-Derives ps θ g) (λ ds k. unchecked k)

    try_rules-Derives :
        (rs : List (Clause C)) (f : Atom C)
        → ((r : Clause C) → In r rs → In r rules)
        → is_ground f.args ≡ true
        → Ensures (Derives f) (try_rules T store prove_child rs f)
    unfolding try_rules
    try_rules-Derives [] f sub g = fail-Ensures (Derives f)
    try_rules-Derives (r ∷ rs) f sub g =
        let later = try_rules-Derives rs f (λ q i. sub q (there i)) g in
        let wrong = not (same_predicate r.head.predicate f.predicate) in
        let longer = not (eqb (length r.head.args) (length f.args)) in
        if-Ensures (Derives f) (wrong || (longer || eqb (length r.premises) 0)) _ _ (λ _. later)
          λ fits. elim (Option-cases (unify_atom_args T r.head.args f.args [])) [
            | inl z ↦ rw z later
            | inr (θ, z) ↦
                let (_, gr, e) =
                  unify_atom_args_lem T r.head.args f.args [] θ
                    (sym (not_ne _ _ (second_false wrong _ _ fits))) empty-IsGrounded g z in
                rw z (
                  orelse-Ensures (Derives f) _ _
                    (bind-Ensures (DerivesAll θ r.premises) (Derives f) _ _
                      (solve_premises-Derives r.premises θ gr)
                      λ ds k. give-Ensures (Derives f) (rule_step T f r θ ds) (
                        by_rule r θ ds refl (sub r (here refl))
                          (same_predicate→eq _ _ (first_false _ _ fits)) e k))
                    later)
          ]

  -- A derivation that `prove` returns for a ground fact is one.
  pub prove-Derives :
      (left : ℕ) (f : Atom C)
      → IsStore store
      → is_ground f.args ≡ true
      → Ensures (Derives f) (prove T store rules left f)
  unfolding prove
  prove-Derives zero f s g =
      bind-Ensures (λ _. Unit {0}) (Derives f) tick _ (λ n n' a e. tt)
        λ _ _. give-Ensures (Derives f) (limit_step T f) (cut_off refl)
  prove-Derives (suc left) f s g =
      bind-Ensures (λ _. Unit {0}) (Derives f) tick _ (λ n n' a e. tt)
        λ steps _.
          if-Ensures (Derives f) (ltb max_explain_steps steps) _ _
            (λ _. give-Ensures (Derives f) (limit_step T f) (cut_off refl))
            λ _.
              orelse-Ensures (Derives f) _ _
                (try_rules-Derives (prove T store rules left) s (λ q k. prove-Derives left q s k)
                  rules f (λ r i. i) g)
                (require-Ensures (Derives f) (store.contains f) _
                  λ c. give-Ensures (Derives f) (fact_step T f) (stored refl c))
