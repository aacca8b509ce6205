-- ===== src/Workflow/Parallel/Degrees.antt =====
-- What the degrees count.
use manglekit.Common.{
  ℤ, pos, ℕ, zero, suc, ◌+◌, ◌≡◌, refl, ap, String, Bool, false, not, ◌==◌, eq_iff, eq_refl, ◌&&◌,
  ◌||◌, none, some, List, [], ◌∷◌, Map, lookup, insert, remove, lookup-insert, lookup-remove,
  contains, arith, Bool-cases, inl, inr, ◌⊎◌, if◌then◌else◌, All,
}
use manglekit.Workflow.{Edge}
use manglekit.Workflow.Parallel.{sub_one, degree, is_plain, release, take_out}

abbrev pub bit : Bool → ℕ
bit b = if b then 1 else 0

-- The plain edges from `id` to `v`, and those to `v` from what is not removed.
abbrev pub out : String → List Edge → String → ℕ
out id [] v = 0
out id (e ∷ es) v = (if (e.from == id) && is_plain e then bit (e.to == v) else 0) + out id es v

abbrev pub live : List String → List Edge → String → ℕ
live gone [] v = 0
live gone (e ∷ es) v =
    (if not (contains gone e.from) && is_plain e then bit (e.to == v) else 0) + live gone es v

-- The degrees of what is not removed are those that `f` tells, and what has no degree has none to
-- count.
abbrev pub Holds : List String → Map ℤ → (String → ℕ) → Type 0
Holds gone deg f =
    (v : String)
    → ((contains gone v ≡ false) × (lookup v deg ≡ some (pos (f v))))
      ⊎ ((lookup v deg ≡ none) × (f v ≡ 0))

Holds-same :
    (gone : List String) (deg : Map ℤ) (f g : String → ℕ)
    → ((v : String) → f v ≡ g v)
    → Holds gone deg f
    → Holds gone deg g
Holds-same gone deg f g same h v = rw (← same v) (h v)

from_gone :
    (gone : List String) (id from : String)
    → contains gone id ≡ false
    → from ≡ id
    → contains gone from ≡ false
from_gone gone id from fresh same = rw same fresh

pub live-out :
    (gone : List String) (id : String) (es : List Edge) (v : String)
    → contains gone id ≡ false
    → live gone es v ≡ out id es v + live (id ∷ gone) es v
live-out gone id [] v fresh = refl
live-out gone id (e ∷ es) v fresh = ground (
  arith,
  live-out gone id es v fresh,
  eq_iff e.from id,
  eq_iff id e.from,
  from_gone gone id e.from fresh,
)

sub_one-pos : (n m : ℕ) → n ≡ 1 + m → sub_one (pos n) ≡ pos m
unfolding sub_one
sub_one-pos zero m h = absurd (omega arith)
sub_one-pos (suc n) m h = ap pos (omega arith)

pub less-Holds :
    (gone : List String) (to : String) (deg : Map ℤ) (f g : String → ℕ)
    → ((v : String) → f v ≡ bit (to == v) + g v)
    → Holds gone deg f
    → Holds gone (insert to (sub_one (degree to deg)) deg) g
less-Holds gone to deg f g count h v =
    let once : f to ≡ bit (to == to) + g to = count to in
    let known : f to ≡ 1 + g to = rw (eq_refl to) at once in
    elim (h to) [
      | inr (_, z) ↦ absurd (omega arith)
      | inl (fresh, z) ↦
          let now : sub_one (degree to deg) ≡ pos (g to) =
            rw (z, degree) (sub_one-pos (f to) (g to) known) in
          rw (now, lookup-insert to v (pos (g to)) deg)
            (elim (Bool-cases (to == v)) [
              | inl y ↦
                  let same : to ≡ v = (eq_iff to v).0 y in
                  rw y (inl (rw same at fresh, rw same refl))
              | inr y ↦
                  let other : f v ≡ bit (to == v) + g v = count v in
                  let same : g v ≡ f v = omega (arith, rw y at other) in rw (y, same) (h v)
            ])
    ]

pub release-Holds :
    (gone : List String) (id : String) (es : List Edge) (deg : Map ℤ) (f g : String → ℕ)
    → ((v : String) → f v ≡ out id es v + g v)
    → Holds gone deg f
    → Holds gone (release id es deg) g
unfolding release
release-Holds gone id [] deg f g count h = Holds-same gone deg f g (λ v. omega (arith, count v)) h
release-Holds gone id (e ∷ es) deg f g count h = elim (Bool-cases ((e.from == id) && is_plain e)) [
  | inl z ↦ rw z (
      release-Holds gone id es _ (λ v. out id es v + g v) g (λ v. refl)
        (less-Holds gone e.to deg f (λ v. out id es v + g v) (λ v. omega (arith, rw z at count v))
          h))
  | inr z ↦ rw z (release-Holds gone id es deg f g (λ v. omega (arith, rw z at count v)) h)
]

remove-Holds :
    (gone : List String) (id : String) (deg : Map ℤ) (f : String → ℕ)
    → f id ≡ 0
    → Holds gone deg f
    → Holds (id ∷ gone) (remove id deg) f
remove-Holds gone id deg f none_left h v =
    rw (lookup-remove id v deg) (elim (Bool-cases (id == v)) [
      | inl z ↦ let same : id ≡ v = (eq_iff id v).0 z in rw z (inr (refl, rw same at none_left))
      | inr z ↦ rw z (h v)
    ])

-- A node without plain edges to it from what is left is taken out.
pub take_one-Holds :
    (gone : List String) (id : String) (es : List Edge) (deg : Map ℤ)
    → contains gone id ≡ false
    → live gone es id ≡ 0
    → Holds gone deg (live gone es)
    → Holds (id ∷ gone) (remove id (release id es deg)) (live (id ∷ gone) es)
take_one-Holds gone id es deg fresh free h =
    remove-Holds gone id (release id es deg) (live (id ∷ gone) es)
      (omega (arith, live-out gone id es id fresh))
      (release-Holds gone id es deg (live gone es) (live (id ∷ gone) es)
        (λ v. live-out gone id es v fresh) h)

-- The keys are taken out once each.
abbrev pub Distinct : List String → Type 0
Distinct [] = Unit
Distinct (id ∷ ids) = (contains ids id ≡ false) × Distinct ids

abbrev pub Free : List String → List Edge → List String → Type 0
Free gone es = All (λ (v : String). (contains gone v ≡ false) × (live gone es v ≡ 0))

pub Free-later :
    (gone : List String) (id : String) (es : List Edge) (ids : List String)
    → contains gone id ≡ false
    → contains ids id ≡ false
    → Free gone es ids
    → Free (id ∷ gone) es ids
Free-later gone id es [] fresh apart free = tt
Free-later gone id es (v ∷ ids) fresh apart ((unseen, free), more) = (
  (ground (arith, eq_iff id v, eq_iff v id), omega (arith, live-out gone id es v fresh)),
  Free-later gone id es ids fresh (ground arith) more,
)

pub take_out-Holds :
    (gone : List String) (ids : List String) (es : List Edge) (deg : Map ℤ)
    → Distinct ids
    → Free gone es ids
    → Holds gone deg (live gone es)
    → (gone' : List String) × Holds gone' (take_out ids es deg) (live gone' es)
      × ((v : String) → contains gone' v ≡ (contains ids v || contains gone v))
unfolding take_out
take_out-Holds gone [] es deg apart free h = (gone, h, λ v. refl)
take_out-Holds gone (id ∷ ids) es deg (new, apart) ((fresh, none_left), free) h =
    let (gone', k, all) =
      take_out-Holds (id ∷ gone) ids es (remove id (release id es deg)) apart
        (Free-later gone id es ids fresh new free)
        (take_one-Holds gone id es deg fresh none_left h) in
    (gone', k, λ v. rw (all v) (ground arith))
