-- ===== src/Workflow/Def/Validate.antt =====
-- What `Validate` establishes.
use manglekit.Common.{
  String, true, ◌≡◌, refl, ◌↔◌, ◌⊎◌, inl, inr, Bool-cases, none, some, List, [], ◌∷◌, Map, lookup,
  arith, contains, All, ◌==◌,
}
use manglekit.Workflow.{Edge}
use manglekit.Workflow.Def.{NodeDef, WorkflowDef, get_node, keys, check_edges, validate}

lookup-contains :
    {V : Type 0} (k : String) (m : Map V)
    → contains (keys m) k ≡ true
    → (v : V) × (lookup k m ≡ some v)
unfolding lookup
lookup-contains k [] h = absurd (cc)
lookup-contains k ((j, v) ∷ m) h = elim (Bool-cases (j == k)) [
  | inl z ↦ (v, rw (z, lookup))
  | inr z ↦ let (u, e) = lookup-contains k m (rw z at h) in (u, rw (z, lookup) e)
]

pub contains-lookup :
    {V : Type 0} (k : String) (m : Map V) {v : V} → lookup k m ≡ some v → contains (keys m) k ≡ true
unfolding lookup
contains-lookup k [] h = cc
contains-lookup k ((j, u) ∷ m) {v} h = ground (arith, contains-lookup k m {v = v})

abbrev pub Connects : WorkflowDef → Edge → Type 0
Connects w e =
    ((n : NodeDef) × (get_node w e.from ≡ some n)) × ((n : NodeDef) × (get_node w e.to ≡ some n))

check_edges-All :
    (w : WorkflowDef) (es : List Edge) → check_edges (keys w.nodes) es ≡ none → All (Connects w) es
unfolding check_edges get_node
check_edges-All w [] h = tt
check_edges-All w (e ∷ es) h =
    let ids = keys w.nodes in
    elim (Bool-cases (contains ids e.from)) [
      | inr z ↦ absurd (cc (rw (z, check_edges) at h))
      | inl z ↦ elim (Bool-cases (contains ids e.to)) [
        | inr y ↦ absurd (cc (rw (z, y, check_edges) at h))
        | inl y ↦ (
          (lookup-contains e.from w.nodes z, lookup-contains e.to w.nodes y),
          check_edges-All w es (rw (z, y, check_edges) at h),
        )
      ]
    ]

All-check_edges :
    (w : WorkflowDef) (es : List Edge) → All (Connects w) es → check_edges (keys w.nodes) es ≡ none
unfolding check_edges get_node
All-check_edges w [] h = refl
All-check_edges w (e ∷ es) h =
    rw (contains-lookup e.from w.nodes h.0.0.1, contains-lookup e.to w.nodes h.0.1.1, check_edges)
      (All-check_edges w es h.1)

-- `Validate` accepts a workflow exactly when it has no node, or every edge starts and ends at a
-- node that `GetNode` finds.
pub validate_iff :
    (w : WorkflowDef) → (validate (some w) ≡ none) ↔ ((w.nodes ≡ []) ⊎ All (Connects w) w.edges)
unfolding validate
validate_iff w = validate_nodes w.nodes refl
  where
    validate_nodes :
        (m : Map NodeDef)
        → w.nodes ≡ m
        → (validate (some w) ≡ none) ↔ ((w.nodes ≡ []) ⊎ All (Connects w) w.edges)
    validate_nodes [] e = (λ _. inl e, λ _. rw e)
    validate_nodes (x ∷ m) e = (
      λ h. inr (check_edges-All w w.edges (rw (e, validate) at h)),
      λ h. rw (e, validate) (elim h [ inl z ↦ absurd (cc) | inr a ↦ All-check_edges w w.edges a ]),
    )
