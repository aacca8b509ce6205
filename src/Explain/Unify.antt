-- ===== src/Explain/Unify.antt =====
-- Substitutions: `unifyAtomArgs`, `unifyTerm`, `applySubstToArgs`, `isGround` and what they give.
use manglekit.Common.{
  ◌≡◌, refl, ap, String, Bool, true, false, ◌&&◌, ◌==◌, eq_iff, Option, none, some, List, [], ◌∷◌,
  arith, if◌then◌else◌, lookup, insert, lookup-insert, Option-cases, Bool-cases, inl, inr, some_eq,
  length,
}
use manglekit.Explain.{BaseTerm, variable, rigid, Atom, Subst, Terms}

module _ {C : Type 0} where
  unfoldable pub is_ground_term : BaseTerm C → Bool
  is_ground_term (variable x) = false
  is_ground_term (rigid c) = true

  unfoldable pub is_ground : List (BaseTerm C) → Bool
  is_ground [] = true
  is_ground (a ∷ bs) = is_ground_term a && is_ground bs

  unfoldable pub apply_subst_term : Subst C → BaseTerm C → BaseTerm C
  apply_subst_term θ (variable x) = elim (lookup x θ) [ none ↦ variable x | some bound ↦ bound ]
  apply_subst_term θ (rigid c) = rigid c

  unfoldable pub apply_subst_to_args : Subst C → List (BaseTerm C) → List (BaseTerm C)
  apply_subst_to_args θ [] = []
  apply_subst_to_args θ (a ∷ bs) = apply_subst_term θ a ∷ apply_subst_to_args θ bs

abbrev pub instance_of : {C : Type 0} → Subst C → Atom C → Atom C
instance_of θ a = record { predicate = a.predicate; args = apply_subst_to_args θ a.args }

module _ {C : Type 0} (T : Terms C) where
  -- `Equals` of two base terms
  unfoldable pub term_equals : BaseTerm C → BaseTerm C → Bool
  term_equals (variable x) (variable y) = x == y
  term_equals (variable x) (rigid c) = false
  term_equals (rigid c) (variable x) = false
  term_equals (rigid c) (rigid d) = T.equals c d

  -- The substitution after a success; what a failure leaves of it is never read.
  unfoldable pub unify_term : BaseTerm C → BaseTerm C → Subst C → Option (Subst C)
  unify_term (variable x) actual θ = elim (lookup x θ) [
    | none ↦ some (insert x actual θ)
    | some bound ↦ if term_equals bound actual then some θ else none
  ]
  unify_term (rigid c) actual θ = if term_equals (rigid c) actual then some θ else none

  -- Callers have compared the lengths.
  unfoldable pub unify_atom_args :
      List (BaseTerm C) → List (BaseTerm C) → Subst C → Option (Subst C)
  unify_atom_args [] actual θ = some θ
  unify_atom_args (p ∷ ps) [] θ = none
  unify_atom_args (p ∷ ps) (a ∷ bs) θ = elim (unify_term p a θ) [
    | none ↦ none
    | some θ' ↦ unify_atom_args ps bs θ'
  ]

  pub term_equals→eq : (s t : BaseTerm C) → term_equals s t ≡ true → s ≡ t
  unfolding term_equals
  term_equals→eq (variable x) (variable y) h = ground (arith, eq_iff x y)
  term_equals→eq (variable x) (rigid c) h = cc
  term_equals→eq (rigid c) (variable x) h = cc
  term_equals→eq (rigid c) (rigid d) h = ap rigid ((T.equals_iff c d).0 h)

  pub term_equals_refl : (t : BaseTerm C) → term_equals t t ≡ true
  unfolding term_equals
  term_equals_refl (variable x) = ground (arith, eq_iff x x)
  term_equals_refl (rigid c) = (T.equals_iff c c).1 refl

-- What a substitution binds stays bound.
abbrev pub Extends : {C : Type 0} → Subst C → Subst C → Type 0
Extends {C} θ θ' = (x : String) (t : BaseTerm C) → lookup x θ ≡ some t → lookup x θ' ≡ some t

-- Every bound term is ground.
abbrev pub IsGrounded : {C : Type 0} → Subst C → Type 0
IsGrounded {C} θ = (x : String) (t : BaseTerm C) → lookup x θ ≡ some t → is_ground_term t ≡ true

module _ {C : Type 0} (T : Terms C) where
  -- After a success the pattern reads bs what it was unified with.
  abbrev Unified : List (BaseTerm C) → List (BaseTerm C) → Subst C → Subst C → Type 0
  Unified ps bs θ θ' = Extends θ θ' × IsGrounded θ' × (apply_subst_to_args θ' ps ≡ bs)

  insert-Extends :
      (x : String) (a : BaseTerm C) (θ : Subst C)
      → lookup x θ ≡ none
      → IsGrounded θ
      → is_ground_term a ≡ true
      → Extends θ (insert x a θ) × IsGrounded (insert x a θ) × (lookup x (insert x a θ) ≡ some a)
  insert-Extends x a θ z g h = (
    λ y t e. ground (arith, lookup-insert x y a θ, eq_iff x y),
    λ y t e. ground (arith, lookup-insert x y a θ, eq_iff x y, g y t),
    ground (arith, lookup-insert x x a θ, eq_iff x x),
  )

  unify_term_lem :
      (p a : BaseTerm C) (θ θ' : Subst C)
      → IsGrounded θ
      → is_ground_term a ≡ true
      → unify_term T p a θ ≡ some θ'
      → Extends θ θ' × IsGrounded θ' × (apply_subst_term θ' p ≡ a)
  unfolding unify_term apply_subst_term
  unify_term_lem (variable x) a θ θ' g h e = elim (Option-cases (lookup x θ)) [
    | inl z ↦
        let same : insert x a θ ≡ θ' = some_eq (rw (z, unify_term) at e) in
        let (ext, gr, found) = insert-Extends x a θ z g h in
        rw (← same) (ext, gr, rw (found, apply_subst_term) refl)
    | inr (t, z) ↦ elim (Bool-cases (term_equals T t a)) [
      | inl eq ↦
          let same : θ ≡ θ' = some_eq (rw (z, unify_term, eq) at e) in
          rw (← same) ((λ y u l. l), g, rw (z, apply_subst_term) (term_equals→eq T t a eq))
      | inr ne ↦ absurd (ground (arith, rw (z, unify_term, ne) at e))
    ]
  ]
  unify_term_lem (rigid c) a θ θ' g h e = elim (Bool-cases (term_equals T (rigid c) a)) [
    | inl eq ↦
        let same : θ ≡ θ' = some_eq (rw (eq, unify_term) at e) in
        rw (← same) ((λ y u l. l), g, term_equals→eq T (rigid c) a eq)
    | inr ne ↦ absurd (ground (arith, rw (ne, unify_term) at e))
  ]

module _ {C : Type 0} where
  apply_subst_term_ground :
      (θ : Subst C) (t : BaseTerm C) → is_ground_term t ≡ true → apply_subst_term θ t ≡ t
  unfolding apply_subst_term is_ground_term
  apply_subst_term_ground θ (variable x) h = cc
  apply_subst_term_ground θ (rigid c) h = refl

  apply_subst_term-twice :
      (θ θ' : Subst C) (t : BaseTerm C)
      → Extends θ θ'
      → IsGrounded θ
      → apply_subst_term θ' (apply_subst_term θ t) ≡ apply_subst_term θ' t
  unfolding apply_subst_term
  apply_subst_term-twice θ θ' (rigid c) x g = refl
  apply_subst_term-twice θ θ' (variable y) x g = elim (Option-cases (lookup y θ)) [
    | inl z ↦ rw (z, apply_subst_term) refl
    | inr (t, z) ↦ rw (z, apply_subst_term, x y t z) (apply_subst_term_ground θ' t (g y t z))
  ]

  -- A pattern that a substitution has been applied to reads, under any later one, as at first.
  pub apply_subst_to_args-twice :
      (θ θ' : Subst C) (ps : List (BaseTerm C))
      → Extends θ θ'
      → IsGrounded θ
      → apply_subst_to_args θ' (apply_subst_to_args θ ps) ≡ apply_subst_to_args θ' ps
  unfolding apply_subst_to_args
  apply_subst_to_args-twice θ θ' [] x g = refl
  apply_subst_to_args-twice θ θ' (p ∷ ps) x g =
      cc (apply_subst_term-twice θ θ' p x g, apply_subst_to_args-twice θ θ' ps x g)

  apply_subst_term-Extends :
      (θ θ' : Subst C) (p a : BaseTerm C)
      → Extends θ θ'
      → is_ground_term a ≡ true
      → apply_subst_term θ p ≡ a
      → apply_subst_term θ' p ≡ a
  unfolding apply_subst_term is_ground_term
  apply_subst_term-Extends θ θ' (rigid c) a x g e = e
  apply_subst_term-Extends θ θ' (variable y) a x g e = elim (Option-cases (lookup y θ)) [
    | inl z ↦
        cc (rw (z, apply_subst_term) at e, g, ap is_ground_term (rw (z, apply_subst_term) at e))
    | inr (t, z) ↦ rw (x y t z, apply_subst_term) (rw (z, apply_subst_term) at e)
  ]

module _ {C : Type 0} (T : Terms C) where
  -- After a success the pattern reads as what it was unified with.
  pub unify_atom_args_lem :
      (ps bs : List (BaseTerm C)) (θ θ' : Subst C)
      → length ps ≡ length bs
      → IsGrounded θ
      → is_ground bs ≡ true
      → unify_atom_args T ps bs θ ≡ some θ'
      → Extends θ θ' × IsGrounded θ' × (apply_subst_to_args θ' ps ≡ bs)
  unfolding unify_atom_args apply_subst_to_args is_ground
  unify_atom_args_lem [] [] θ θ' l g h e = rw (← some_eq e) ((λ y u z. z), g, refl)
  unify_atom_args_lem [] (b ∷ bs) θ θ' l g h e = absurd (omega arith)
  unify_atom_args_lem (p ∷ ps) [] θ θ' l g h e = absurd (omega arith)
  unify_atom_args_lem (p ∷ ps) (b ∷ bs) θ θ' l g h e =
      let hb : is_ground_term b ≡ true = ground arith in
      let hbs : is_ground bs ≡ true = ground arith in
      elim (Option-cases (unify_term T p b θ)) [
        | inl z ↦ absurd (ground (arith, rw (z, unify_atom_args) at e))
        | inr (θ1, z) ↦
            let (x1, g1, a1) = unify_term_lem T p b θ θ1 g hb z in
            let (x2, g2, a2) =
              unify_atom_args_lem ps bs θ1 θ' (omega arith) g1 hbs (rw (z, unify_atom_args) at e) in
            (λ y u k. x2 y u (x1 y u k), g2, cc (apply_subst_term-Extends θ1 θ' p b x2 hb a1, a2))
      ]
