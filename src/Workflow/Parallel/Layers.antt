-- ===== src/Workflow/Parallel/Layers.antt =====
-- What `identifyParallelGroups` finds.
use manglekit.Common.{
  ℤ, pos, ℕ, zero, suc, ◌+◌, ◌≤◌, ◌≡◌, refl, ap, String, Bool, true, false, ◌==◌, eq_iff, eq_refl,
  ◌||◌, some, List, [], ◌∷◌, Map, lookup, insert, lookup-insert, length, ltb, ltb→lt, contains,
  arith, Bool-cases, inl, inr, if◌then◌else◌, All, All-map, List-cases,
}
use manglekit.Workflow.{Edge, Node, Workflow}
use manglekit.Workflow.Parallel.{
  add_one, degree, is_plain, node_degrees, edge_degrees, zeros, take_out, groups_from,
  identify_parallel_groups,
}
use manglekit.Workflow.Parallel.Degrees.{Distinct, Free, Holds, bit, live, take_out-Holds}
use manglekit.Workflow.Parallel.Keys.{
  Unique, insert-Unique, zeros-Distinct, zeros-lookup, take_out-Unique, take_out-length,
}

abbrev pub in_groups : List (List String) → String → Bool
in_groups [] v = false
in_groups (g ∷ gs) v = contains g v || in_groups gs v

-- Two nodes at least in each group, none of them in a later group, and no edge without a condition
-- from a node of the group or of a later one to a node of the group.
abbrev pub IsLayered : List Edge → List (List String) → Type 0
IsLayered es [] = Unit
IsLayered es (g ∷ gs) =
    (2 ≤ length g)
    × ((v : String) → contains g v ≡ true → in_groups gs v ≡ false)
    × All
        (λ (e : Edge).
          is_plain e ≡ true → contains g e.to ≡ true → in_groups (g ∷ gs) e.from ≡ false)
        es
    × IsLayered es gs

All-contains :
    (P : String → Type 0) (vs : List String)
    → ((v : String) → contains vs v ≡ true → P v)
    → All P vs
All-contains P [] h = tt
All-contains P (v ∷ vs) h =
    (h v (rw (eq_refl v) refl), All-contains P vs (λ w c. h w (rw c (ground arith))))

zeros-Free :
    (gone : List String) (es : List Edge) (deg : Map ℤ)
    → Unique deg
    → Holds gone deg (live gone es)
    → Free gone es (zeros deg)
zeros-Free gone es deg u h = All-contains _ (zeros deg) (λ v c. elim (h v) [
  | inl (fresh, y) ↦ (fresh, cc (zeros-lookup deg v u c, y))
  | inr (y, _) ↦ absurd (cc (zeros-lookup deg v u c, y))
])

free-gone :
    (gone g : List String) (es : List Edge)
    → ((v : String) → contains g v ≡ true → live gone es v ≡ 0)
    → All
        (λ (e : Edge). is_plain e ≡ true → contains g e.to ≡ true → contains gone e.from ≡ true)
        es
free-gone gone g [] h = tt
free-gone gone g (e ∷ es) h = (
  (λ plain c. elim (Bool-cases (contains gone e.from)) [
    | inl z ↦ z
    | inr z ↦
        let none_left : live gone (e ∷ es) e.to ≡ 0 = h e.to c in
        absurd (omega (arith, rw (z, plain, eq_refl e.to) at none_left))
  ]),
  free-gone gone g es (λ v c. omega (arith, h v c)),
)

All-at :
    (P : String → Type 0) (vs : List String) (v : String) → All P vs → contains vs v ≡ true → P v
All-at P [] v h c = absurd (cc c)
All-at P (w ∷ vs) v (h, more) c = elim (Bool-cases (w == v)) [
  | inl z ↦ let same : w ≡ v = (eq_iff w v).0 z in rw same at h
  | inr z ↦ All-at P vs v more (rw z at c)
]

-- A group of nodes that are free goes before groups of nodes that are left.
cons-IsLayered :
    (gone gone' g : List String) (gs : List (List String)) (es : List Edge)
    → Free gone es g
    → ((v : String) → contains gone' v ≡ (contains g v || contains gone v))
    → IsLayered es gs
    → ((v : String) → in_groups gs v ≡ true → contains gone' v ≡ false)
    → ((2 ≤ length g) → IsLayered es (g ∷ gs))
      × ((v : String) → in_groups (g ∷ gs) v ≡ true → contains gone v ≡ false)
      × ((v : String) → in_groups gs v ≡ true → contains gone v ≡ false)
cons-IsLayered gone gone' g gs es free all layered apart = (
  (λ two. (
    two,
    (λ v c. elim (Bool-cases (in_groups gs v)) [
      | inr z ↦ z
      | inl z ↦ absurd (ground (arith, apart v z, all v, c))
    ]),
    All-map _ _ es
        (λ e held plain c. elim (Bool-cases (in_groups (g ∷ gs) e.from)) [
          | inr z ↦ z
          | inl z ↦ absurd (cc (fresh e.from z, held plain c))
        ])
        (free-gone gone g es (λ v c. (All-at _ g v free c).1)),
    layered,
  )),
  fresh,
  later,
)
  where
    later : (v : String) → in_groups gs v ≡ true → contains gone v ≡ false
    later v c = ground (arith, apart v c, all v)

    fresh : (v : String) → in_groups (g ∷ gs) v ≡ true → contains gone v ≡ false
    fresh v c = elim (Bool-cases (contains g v)) [
      | inl z ↦ (All-at _ g v free z).0
      | inr z ↦ later v (rw z at c)
    ]

round_lem :
    (gone : List String) (id : String) (ids : List String) (es : List Edge) (deg : Map ℤ)
    → zeros deg ≡ id ∷ ids
    → Unique deg
    → Holds gone deg (live gone es)
    → Distinct (id ∷ ids)
      × Free gone es (id ∷ ids)
      × (length (take_out (id ∷ ids) es deg) + 1 ≤ length deg)
round_lem gone id ids es deg z u h =
    let apart : Distinct (zeros deg) = zeros-Distinct deg u in
    let free : Free gone es (zeros deg) = zeros-Free gone es deg u h in
    let first : contains (zeros deg) id ≡ true = rw (z, eq_refl id) refl in
    let distinct : Distinct (id ∷ ids) = rw z at apart in
    let freed : Free gone es (id ∷ ids) = rw z at free in
    (
      distinct,
      freed,
      take_out-length gone id ids es deg distinct freed h
          (λ x. cc (x, zeros-lookup deg id u first)),
    )

groups_from-cons :
    (fuel : ℕ) (es : List Edge) (deg : Map ℤ) (id : String) (ids : List String)
    (gs : List (List String))
    → zeros deg ≡ id ∷ ids
    → groups_from fuel es (take_out (id ∷ ids) es deg) ≡ some gs
    → groups_from (suc fuel) es deg
      ≡ some (if ltb 1 (length (id ∷ ids)) then (id ∷ ids) ∷ gs else gs)
unfolding groups_from
groups_from-cons fuel es deg id ids gs z e =
    let inner : groups_from fuel es (take_out (zeros deg) es deg) ≡ some gs = rw z e in
    rw (z, groups_from, inner) refl

groups_from_total :
    (fuel : ℕ) (gone : List String) (es : List Edge) (deg : Map ℤ)
    → length deg ≤ fuel
    → Unique deg
    → Holds gone deg (live gone es)
    → (gs : List (List String)) × (groups_from fuel es deg ≡ some gs)
      × IsLayered es gs
      × ((v : String) → in_groups gs v ≡ true → contains gone v ≡ false)
unfolding groups_from
groups_from_total zero gone es deg enough u h = elim (List-cases (zeros deg)) [
  | inl z ↦ ([], rw (z, groups_from) refl, tt, λ v c. absurd (cc c))
  | inr (id, ids, z) ↦
      let (_, _, shorter) = round_lem gone id ids es deg z u h in absurd (omega arith)
]
groups_from_total (suc fuel) gone es deg enough u h = elim (List-cases (zeros deg)) [
  | inl z ↦ ([], rw (z, groups_from) refl, tt, λ v c. absurd (cc c))
  | inr (id, ids, z) ↦
      let (distinct, free, shorter) = round_lem gone id ids es deg z u h in
      let (gone', k, all) = take_out-Holds gone (id ∷ ids) es deg distinct free h in
      let (gs, e, layered, apart) =
        groups_from_total fuel gone' es (take_out (id ∷ ids) es deg) (omega arith)
          (take_out-Unique (id ∷ ids) es deg u) k in
      let (whole, fresh, later) =
        cons-IsLayered gone gone' (id ∷ ids) gs es free all layered apart in
      elim (Bool-cases (ltb 1 (length (id ∷ ids)))) [
        | inl y ↦ (
          (id ∷ ids) ∷ gs,
          rw y at (groups_from-cons fuel es deg id ids gs z e),
          whole (ltb→lt 1 (length (id ∷ ids)) y),
          fresh,
        )
        | inr y ↦ (gs, rw y at (groups_from-cons fuel es deg id ids gs z e), layered, later)
      ]
]

more-Holds :
    (to : String) (deg : Map ℤ) (f : String → ℕ)
    → Holds [] deg f
    → Holds [] (insert to (add_one (degree to deg)) deg) (λ v. bit (to == v) + f v)
unfolding add_one
more-Holds to deg f h v =
    let counted : add_one (degree to deg) ≡ pos (1 + f to) = elim (h to) [
      | inl (_, z) ↦ rw (z, degree) (ap pos (omega arith))
      | inr (z, none_yet) ↦ rw (z, degree) (ap pos (omega arith))
    ] in
    rw (counted, lookup-insert to v (pos (1 + f to)) deg)
      (elim (Bool-cases (to == v)) [
        | inl y ↦ let same : to ≡ v = (eq_iff to v).0 y in rw y (inl (refl, rw same refl))
        | inr y ↦ let as_before : bit false + f v ≡ f v = omega arith in rw (y, as_before) (h v)
      ])

edge_degrees-Holds :
    (es : List Edge) (deg : Map ℤ) (f g : String → ℕ)
    → ((v : String) → g v ≡ live [] es v + f v)
    → Unique deg
    → Holds [] deg f
    → Holds [] (edge_degrees es deg) g × Unique (edge_degrees es deg)
unfolding edge_degrees
edge_degrees-Holds [] deg f g count u h =
    ((λ v. let same : g v ≡ f v = omega (arith, count v) in rw same (h v)), u)
edge_degrees-Holds (e ∷ es) deg f g count u h = elim (Bool-cases (is_plain e)) [
  | inl z ↦ rw z (
      edge_degrees-Holds es _ (λ v. bit (e.to == v) + f v) g (λ v. omega (arith, rw z at count v))
        (insert-Unique e.to _ deg u) (more-Holds e.to deg f h))
  | inr z ↦ rw z (edge_degrees-Holds es deg f g (λ v. omega (arith, rw z at count v)) u h)
]

node_degrees-Holds :
    (ns : List Node) (deg : Map ℤ)
    → Unique deg
    → Holds [] deg (λ v. 0)
    → Holds [] (node_degrees ns deg) (λ v. 0) × Unique (node_degrees ns deg)
unfolding node_degrees
node_degrees-Holds [] deg u h = (h, u)
node_degrees-Holds (n ∷ ns) deg u h =
    node_degrees-Holds ns (insert n.id (pos 0) deg) (insert-Unique n.id (pos 0) deg u) (λ v.
      rw (lookup-insert n.id v (pos 0) deg)
        (elim (Bool-cases (n.id == v)) [ inl z ↦ rw z (inl (refl, refl)) | inr z ↦ rw z (h v) ]))

-- The loop that looks for groups always ends, after one round per key of the degrees at most. It finds
-- groups of two nodes at least, which have no node in common, such that no edge without a condition
-- leads to a node from a node of the same group or of a later one.
pub identify_parallel_groups_total :
    (wf : Workflow)
    → (gs : List (List String)) × (identify_parallel_groups wf ≡ some gs) × IsLayered wf.edges gs
unfolding identify_parallel_groups lookup
identify_parallel_groups_total wf =
    let (h, u) = node_degrees-Holds wf.nodes [] tt (λ v. inr (refl, refl)) in
    let (k, w) =
      edge_degrees-Holds wf.edges (node_degrees wf.nodes []) (λ v. 0) (live [] wf.edges)
        (λ v. omega arith) u h in
    let deg = edge_degrees wf.edges (node_degrees wf.nodes []) in
    let (gs, e, layered, _) = groups_from_total (length deg) [] wf.edges deg (omega arith) w k in
    (gs, e, layered)
