-- ===== src/Workflow/Def/Least.antt =====
-- The loop of `FindStartNode` that keeps the node with the least id, for any order of the map.
use manglekit.Common.{
  ◌≢◌, String, Bool, true, false, ◌≡◌, ◌⊎◌, inl, inr, Option, none, some, [], ◌∷◌, Map, lookup,
  arith, eq_iff, contains, Option-cases, some_eq, str_ltb, str_ltb_trans, str_ltb_antisym,
  str_geb_trans, str_ltb_irrefl, if◌then◌else◌, ap, sym, ◌∙◌,
}
use manglekit.Workflow.Def.{NodeDef, better, least_node, keys}

-- Every entry stands under its node's id.
abbrev pub IdsMatch : Map NodeDef → Type 0
IdsMatch [] = Unit
IdsMatch ((id, n) ∷ m) = (id ≡ n.id) × IdsMatch m

-- `n` is the node of an entry that passes the test.
abbrev pub Passes : (String → Bool) → NodeDef → Map NodeDef → Type 0
Passes test n [] = ⊥
Passes test n ((id, k) ∷ m) = ((k ≡ n) × (test id ≡ true)) ⊎ Passes test n m

-- No entry that passes the test has a smaller id than `n`.
abbrev NoSmaller : (String → Bool) → NodeDef → Map NodeDef → Type 0
NoSmaller test n [] = Unit
NoSmaller test n ((id, k) ∷ m) = (test id ≡ true → str_ltb id n.id ≡ false) × NoSmaller test n m

abbrev Bounded : Option NodeDef → NodeDef → Type 0
Bounded none n = Unit
Bounded (some b) n = str_ltb b.id n.id ≡ false

module _ (test : String → Bool) where
  least_node-Bounded :
      (m : Map NodeDef) (best : Option NodeDef) (n : NodeDef)
      → IdsMatch m
      → least_node test m best ≡ some n
      → Bounded best n
  unfolding least_node
  least_node-Bounded [] none n i h = tt
  least_node-Bounded [] (some b) n i h = ground (arith, str_ltb_irrefl n.id)
  least_node-Bounded ((id, k) ∷ m) none n i h = tt
  least_node-Bounded ((id, k) ∷ m) (some b) n i h =
      let best' = if test id then better id k (some b) else some b in
      ground (arith, least_node-Bounded m best' n i.1 h, str_ltb_trans id b.id n.id)

  first_bound :
      (id : String) (k : NodeDef) (best : Option NodeDef) (n : NodeDef)
      → id ≡ k.id
      → Bounded (if test id then better id k best else best) n
      → test id ≡ true
      → str_ltb id n.id ≡ false
  first_bound id k none n e h t = ground arith
  first_bound id k (some b) n e h t = ground (arith, str_geb_trans id b.id n.id)

  least_node-NoSmaller :
      (m : Map NodeDef) (best : Option NodeDef) (n : NodeDef)
      → IdsMatch m
      → least_node test m best ≡ some n
      → NoSmaller test n m
  unfolding least_node
  least_node-NoSmaller [] best n i h = tt
  least_node-NoSmaller ((id, k) ∷ m) best n i h =
      let best' = if test id then better id k best else best in
      (
        first_bound id k best n i.0 (least_node-Bounded m best' n i.1 h),
        least_node-NoSmaller m best' n i.1 h,
      )

  pub least_node-Passes :
      (m : Map NodeDef) (best : Option NodeDef) (n : NodeDef)
      → least_node test m best ≡ some n
      → (best ≡ some n) ⊎ Passes test n m
  unfolding least_node
  least_node-Passes [] best n h = inl h
  least_node-Passes ((id, k) ∷ m) none n h =
      ground (arith, least_node-Passes m (if test id then some k else none) n h)
  least_node-Passes ((id, k) ∷ m) (some b) n h =
      ground (arith, least_node-Passes m (if test id then better id k (some b) else some b) n h)

  pub least_node-none :
      (m : Map NodeDef) (best : Option NodeDef) (k : String) (v : NodeDef)
      → least_node test m best ≡ none
      → (best ≡ none) × (lookup k m ≡ some v → test k ≡ false)
  unfolding least_node lookup
  least_node-none [] best k v h = (h, λ e. absurd (cc))
  least_node-none ((id, n) ∷ m) none k v h =
      ground (arith, eq_iff id k, least_node-none m (if test id then some n else none) k v h)
  least_node-none ((id, n) ∷ m) (some b) k v h = ground (
    arith,
    eq_iff id k,
    least_node-none m (if test id then better id n (some b) else some b) k v h,
  )

-- No key twice, as in a Go map.
abbrev pub Distinct : Map NodeDef → Type 0
Distinct [] = Unit
Distinct ((id, n) ∷ m) = (contains (keys m) id ≡ false) × Distinct m

Passes-contains :
    (test : String → Bool) (n : NodeDef) (m : Map NodeDef)
    → IdsMatch m
    → Passes test n m
    → contains (keys m) n.id ≡ true
Passes-contains test n [] i p = absurd p
Passes-contains test n ((id, k) ∷ m) i (inl p) = ground (arith, eq_iff id n.id)
Passes-contains test n ((id, k) ∷ m) i (inr p) = ground (arith, Passes-contains test n m i.1 p)

Passes-lookup :
    (test : String → Bool) (n : NodeDef) (m : Map NodeDef)
    → IdsMatch m
    → Distinct m
    → Passes test n m
    → (lookup n.id m ≡ some n) × (test n.id ≡ true)
unfolding lookup
Passes-lookup test n [] i d p = absurd p
Passes-lookup test n ((id, k) ∷ m) i d (inl p) = ground (arith, eq_iff id n.id)
Passes-lookup test n ((id, k) ∷ m) i d (inr p) =
    ground (arith, eq_iff id n.id, Passes-contains test n m i.1 p, Passes-lookup test n m i.1 d.1 p)

NoSmaller-lookup :
    (test : String → Bool) (n : NodeDef) (m : Map NodeDef) (k : String) (v : NodeDef)
    → NoSmaller test n m
    → lookup k m ≡ some v
    → test k ≡ true
    → str_ltb k n.id ≡ false
unfolding lookup
NoSmaller-lookup test n [] k v s e t = cc
NoSmaller-lookup test n ((id, j) ∷ m) k v s e t =
    ground (arith, eq_iff id k, NoSmaller-lookup test n m k v s.1)

-- The two lists hold the same map.
abbrev pub SameMap : Map NodeDef → Map NodeDef → Type 0
SameMap m m' = (k : String) → lookup k m ≡ lookup k m'

-- What the loop finds, by lookups.
record IsLeast (test : String → Bool) (m : Map NodeDef) (n : NodeDef) : Type 0 where
  found : lookup n.id m ≡ some n
  passes : test n.id ≡ true
  least : (k : String) (v : NodeDef) → lookup k m ≡ some v → test k ≡ true → str_ltb k n.id ≡ false

least_node-IsLeast :
    (test : String → Bool) (m : Map NodeDef) (n : NodeDef)
    → IdsMatch m
    → Distinct m
    → least_node test m none ≡ some n
    → IsLeast test m n
least_node-IsLeast test m n i d e = elim (least_node-Passes test m none n e) [
  | inl z ↦ absurd (cc)
  | inr p ↦
      let (f, t) = Passes-lookup test n m i d p in
      record {
        found = f;
        passes = t;
        least = λ k v. NoSmaller-lookup test n m k v (least_node-NoSmaller test m none n i e);
      }
]

IsLeast-unique :
    (test : String → Bool) (m m' : Map NodeDef) (n n' : NodeDef)
    → SameMap m m'
    → IsLeast test m n
    → IsLeast test m' n'
    → n ≡ n'
IsLeast-unique test m m' n n' same l l' =
    let up = l.least n'.id n' (same n'.id ∙ l'.found) l'.passes in
    let down = l'.least n.id n (sym (same n.id) ∙ l.found) l.passes in
    let ids = str_ltb_antisym n.id n'.id down up in
    some_eq (sym l.found ∙ ap (λ k. lookup k m) ids ∙ same n'.id ∙ l'.found)

IsLeast-some :
    (test : String → Bool) (m m' : Map NodeDef) (n : NodeDef)
    → SameMap m m'
    → IsLeast test m n
    → least_node test m' none ≢ none
IsLeast-some test m m' n same l e =
    cc ((least_node-none test m' none n.id n e).1 (sym (same n.id) ∙ l.found), l.passes)

pub least_node-order :
    (test : String → Bool) (m m' : Map NodeDef)
    → IdsMatch m
    → Distinct m
    → IdsMatch m'
    → Distinct m'
    → SameMap m m'
    → least_node test m none ≡ least_node test m' none
least_node-order test m m' i d i' d' same = elim (Option-cases (least_node test m none)) [
  | inl z ↦ elim (Option-cases (least_node test m' none)) [
    | inl z' ↦ z ∙ sym z'
    | inr (n', z') ↦
        absurd
          (IsLeast-some test m' m n' (λ k. sym (same k)) (least_node-IsLeast test m' n' i' d' z') z)
  ]
  | inr (n, z) ↦
      let l = least_node-IsLeast test m n i d z in
      elim (Option-cases (least_node test m' none)) [
        | inl z' ↦ absurd (IsLeast-some test m m' n same l z')
        | inr (n', z') ↦
            let l' = least_node-IsLeast test m' n' i' d' z' in
            z ∙ ap (λ (x : NodeDef). some x) (IsLeast-unique test m m' n n' same l l') ∙ sym z'
      ]
]
