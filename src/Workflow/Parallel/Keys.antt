-- ===== src/Workflow/Parallel/Keys.antt =====
-- The keys of the degrees: no key stands twice, and how many there are.
use manglekit.Common.{
  ℤ, pos, negsuc, ℕ, zero, suc, ◌+◌, ◌≤◌, ◌≡◌, ◌≢◌, refl, ap, ◌∙◌, String, true, false, ◌==◌,
  eq_iff, eq_refl, ◌&&◌, none, some, List, [], ◌∷◌, Map, lookup, insert, remove, lookup-insert,
  lookup-remove, length, contains, arith, Bool-cases, inl, inr, if_cases,
}
use manglekit.Workflow.{Edge}
use manglekit.Workflow.Parallel.{sub_one, is_zero, degree, is_plain, zeros, release, take_out}
use manglekit.Workflow.Parallel.Degrees.{
  Distinct, Free, Holds, bit, out, live, live-out, less-Holds, take_one-Holds, Free-later,
}

module _ {V : Type 0} where
  abbrev pub Unique : Map V → Type 0
  Unique [] = Unit
  Unique ((k, v) ∷ m) = (lookup k m ≡ none) × Unique m

  pub insert-Unique : (k : String) (v : V) (m : Map V) → Unique m → Unique (insert k v m)
  unfolding insert lookup
  insert-Unique k v [] u = (refl, tt)
  insert-Unique k v ((j, w) ∷ m) (new, u) = elim (Bool-cases (j == k)) [
    | inl z ↦ rw z (new, u)
    | inr z ↦
        rw z (
          rw (lookup-insert k j v m) (ground (arith, eq_iff k j, eq_iff j k)),
          insert-Unique k v m u,
        )
  ]

  pub remove-Unique : (k : String) (m : Map V) → Unique m → Unique (remove k m)
  unfolding remove
  remove-Unique k [] u = tt
  remove-Unique k ((j, w) ∷ m) (new, u) = elim (Bool-cases (j == k)) [
    | inl z ↦ rw z (remove-Unique k m u)
    | inr z ↦ rw z (rw (lookup-remove k j m) (ground arith), remove-Unique k m u)
  ]

  length-insert :
      (k : String) (v : V) (m : Map V) → lookup k m ≢ none → length (insert k v m) ≡ length m
  unfolding insert lookup
  length-insert k v [] h = absurd (h refl)
  length-insert k v ((j, w) ∷ m) h = elim (Bool-cases (j == k)) [
    | inl z ↦ rw z refl
    | inr z ↦ rw z (ap suc (length-insert k v m (rw z at h)))
  ]

  length-remove_le : (k : String) (m : Map V) → length (remove k m) ≤ length m
  unfolding remove
  length-remove_le k [] = omega arith
  length-remove_le k ((j, w) ∷ m) = ground (arith, length-remove_le k m)

  length-remove : (k : String) (m : Map V) → lookup k m ≢ none → length (remove k m) + 1 ≤ length m
  unfolding remove lookup
  length-remove k [] h = absurd (h refl)
  length-remove k ((j, w) ∷ m) h = elim (Bool-cases (j == k)) [
    | inl z ↦ rw z (omega (arith, length-remove_le k m))
    | inr z ↦ rw z (omega (arith, length-remove k m (rw z at h)))
  ]

zeros-later : (k : String) (deg : Map ℤ) → lookup k deg ≡ none → contains (zeros deg) k ≡ false
unfolding zeros lookup
zeros-later k [] h = refl
zeros-later k ((j, d) ∷ deg) h = elim (Bool-cases (j == k)) [
  | inl z ↦ absurd (cc (rw z at h))
  | inr z ↦ elim (Bool-cases (is_zero d)) [
    | inl y ↦ rw (y, z) (zeros-later k deg (rw z at h))
    | inr y ↦ rw y (zeros-later k deg (rw z at h))
  ]
]

pub zeros-Distinct : (deg : Map ℤ) → Unique deg → Distinct (zeros deg)
unfolding zeros
zeros-Distinct [] u = tt
zeros-Distinct ((j, d) ∷ deg) (new, u) = elim (Bool-cases (is_zero d)) [
  | inl y ↦ rw y (zeros-later j deg new, zeros-Distinct deg u)
  | inr y ↦ rw y (zeros-Distinct deg u)
]

is_zero-pos : (d : ℤ) → is_zero d ≡ true → d ≡ pos 0
is_zero-pos (pos zero) h = refl
is_zero-pos (pos (suc n)) h = absurd (cc h)
is_zero-pos (negsuc n) h = absurd (cc h)

-- Every zero is a key of that degree.
pub zeros-lookup :
    (deg : Map ℤ) (v : String)
    → Unique deg
    → contains (zeros deg) v ≡ true
    → lookup v deg ≡ some (pos 0)
unfolding zeros lookup
zeros-lookup [] v u h = absurd (cc h)
zeros-lookup ((j, d) ∷ deg) v (new, u) h = elim (Bool-cases (j == v)) [
  | inl z ↦
      let same : j ≡ v = (eq_iff j v).0 z in
      elim (Bool-cases (is_zero d)) [
        | inl y ↦ rw z (ap some (is_zero-pos d y))
        | inr y ↦
            let missing : contains (zeros deg) j ≡ false = zeros-later j deg new in
            absurd (cc (missing, rw (y, zeros) at h))
      ]
  | inr z ↦ elim (Bool-cases (is_zero d)) [
    | inl y ↦ rw z (zeros-lookup deg v u (rw (y, z, zeros) at h))
    | inr y ↦ rw z (zeros-lookup deg v u (rw (y, zeros) at h))
  ]
]

release-Unique :
    (id : String) (es : List Edge) (deg : Map ℤ) → Unique deg → Unique (release id es deg)
unfolding release
release-Unique id [] deg u = u
release-Unique id (e ∷ es) deg u =
    release-Unique id es _ (
      if_cases Unique ((e.from == id) && is_plain e) _ _ (λ z. insert-Unique e.to _ deg u) (λ z. u))

pub take_out-Unique :
    (ids : List String) (es : List Edge) (deg : Map ℤ) → Unique deg → Unique (take_out ids es deg)
unfolding take_out
take_out-Unique [] es deg u = u
take_out-Unique (id ∷ ids) es deg u =
    take_out-Unique ids es _ (remove-Unique id _ (release-Unique id es deg u))

release-lookup :
    (v id : String) (es : List Edge) (deg : Map ℤ)
    → lookup v deg ≢ none
    → lookup v (release id es deg) ≢ none
unfolding release
release-lookup v id [] deg h = h
release-lookup v id (e ∷ es) deg h = release-lookup v id es _ (
    if_cases (λ (d : Map ℤ). lookup v d ≢ none) ((e.from == id) && is_plain e) _ _
      (λ z. λ x. elim (Bool-cases (e.to == v)) [
        | inl y ↦ cc (rw (lookup-insert e.to v (sub_one (degree e.to deg)) deg, y) at x)
        | inr y ↦ h (rw (lookup-insert e.to v (sub_one (degree e.to deg)) deg, y) at x)
      ])
      (λ z. h))

release-length :
    (gone : List String) (id : String) (es : List Edge) (deg : Map ℤ) (f g : String → ℕ)
    → ((v : String) → f v ≡ out id es v + g v)
    → Holds gone deg f
    → length (release id es deg) ≡ length deg
unfolding release
release-length gone id [] deg f g count h = refl
release-length gone id (e ∷ es) deg f g count h = elim (Bool-cases ((e.from == id) && is_plain e)) [
  | inl z ↦
      let later : (v : String) → f v ≡ bit (e.to == v) + (out id es v + g v) =
        λ v. omega (arith, rw z at count v) in
      let once : f e.to ≡ bit (e.to == e.to) + (out id es e.to + g e.to) = later e.to in
      let counted : f e.to ≡ 1 + (out id es e.to + g e.to) = rw (eq_refl e.to) at once in
      let present : lookup e.to deg ≢ none =
        λ x. elim (h e.to) [ inl (_, y) ↦ cc (x, y) | inr (_, y) ↦ omega arith ] in
      rw z (
        release-length gone id es _ (λ v. out id es v + g v) g (λ v. refl)
          (less-Holds gone e.to deg f (λ v. out id es v + g v) later h)
        ∙ length-insert e.to _ deg present)
  | inr z ↦ rw z (release-length gone id es deg f g (λ v. omega (arith, rw z at count v)) h)
]

take_out-length_le :
    (gone : List String) (ids : List String) (es : List Edge) (deg : Map ℤ)
    → Distinct ids
    → Free gone es ids
    → Holds gone deg (live gone es)
    → length (take_out ids es deg) ≤ length deg
unfolding take_out
take_out-length_le gone [] es deg apart free h = omega arith
take_out-length_le gone (id ∷ ids) es deg (new, apart) ((fresh, none_left), free) h = omega (
  arith,
  release-length gone id es deg (live gone es) (live (id ∷ gone) es)
      (λ v. live-out gone id es v fresh) h,
  length-remove_le id (release id es deg),
  take_out-length_le (id ∷ gone) ids es (remove id (release id es deg)) apart
      (Free-later gone id es ids fresh new free) (take_one-Holds gone id es deg fresh none_left h),
)

pub take_out-length :
    (gone : List String) (id : String) (ids : List String) (es : List Edge) (deg : Map ℤ)
    → Distinct (id ∷ ids)
    → Free gone es (id ∷ ids)
    → Holds gone deg (live gone es)
    → lookup id deg ≢ none
    → length (take_out (id ∷ ids) es deg) + 1 ≤ length deg
unfolding take_out
take_out-length gone id ids es deg (new, apart) ((fresh, none_left), free) h present = omega (
  arith,
  release-length gone id es deg (live gone es) (live (id ∷ gone) es)
      (λ v. live-out gone id es v fresh) h,
  length-remove id (release id es deg) (release-lookup id id es deg present),
  take_out-length_le (id ∷ gone) ids es (remove id (release id es deg)) apart
      (Free-later gone id es ids fresh new free) (take_one-Holds gone id es deg fresh none_left h),
)
