-- ===== src/FactStore/Cleanup.antt =====
-- What a cleanup leaves.
use mathlib.Core.Path.{subst}
use manglekit.Common.{
  ℕ, ◌+◌, ◌≡◌, refl, String, true, false, Bool-cases, ◌==◌, some, Option-cases, [], ◌∷◌, Map,
  lookup, arith, length, inl, inr, some_eq, ◌∙◌, sym, ap,
}
use manglekit.FactStore.{
  Fact, FactStore, is_expired, found, get_in, get, clean_facts, keep_session, clean_sessions,
  cleanup_expired,
}

-- The number of facts of all sessions.
abbrev pub facts_in : Map (Map Fact) → ℕ
facts_in [] = 0
facts_in ((id, m) ∷ ms) = length m + facts_in ms

abbrev pub AllLive : ℕ → Map Fact → Type 0
AllLive now [] = Unit
AllLive now ((k, f) ∷ m) = (is_expired now f ≡ false) × AllLive now m

-- Every session has a fact, and no fact is expired.
abbrev pub IsClean : ℕ → Map (Map Fact) → Type 0
IsClean now [] = Unit
IsClean now ((id, m) ∷ ms) = ((length m ≡ 0 → ⊥) × AllLive now m) × IsClean now ms

clean_facts-length :
    (now : ℕ) (m : Map Fact) → let (m', n) = clean_facts now m in length m' + n ≡ length m
clean_facts-length now [] = omega arith
clean_facts-length now ((k, f) ∷ m) = ground (arith, clean_facts-length now m)

clean_facts-AllLive : (now : ℕ) (m : Map Fact) → AllLive now (clean_facts now m).0
clean_facts-AllLive now [] = tt
clean_facts-AllLive now ((k, f) ∷ m) = elim (Bool-cases (is_expired now f)) [
  | inl z ↦ rw (z, clean_facts) (clean_facts-AllLive now m)
  | inr z ↦ rw (z, clean_facts) (z, clean_facts-AllLive now m)
]

clean_facts-lookup :
    (now : ℕ) (key : String) (m : Map Fact) (f : Fact)
    → lookup key m ≡ some f
    → is_expired now f ≡ false
    → lookup key (clean_facts now m).0 ≡ some f
unfolding lookup
clean_facts-lookup now key [] f h l = cc
clean_facts-lookup now key ((k, g) ∷ m) f h l = ground (arith, clean_facts-lookup now key m f)

keep_session-IsClean :
    (now : ℕ) (id : String) (m : Map Fact) (ms : Map (Map Fact))
    → AllLive now m
    → IsClean now ms
    → IsClean now (keep_session id m ms)
keep_session-IsClean now id [] ms a c = c
keep_session-IsClean now id (f ∷ m) ms a c = (((λ h. omega arith), a), c)

keep_session-facts :
    (id : String) (m : Map Fact) (ms : Map (Map Fact))
    → facts_in (keep_session id m ms) ≡ length m + facts_in ms
keep_session-facts id [] ms = omega arith
keep_session-facts id (f ∷ m) ms = refl

keep_session-other :
    (id j : String) (m : Map Fact) (ms : Map (Map Fact))
    → (j == id) ≡ false
    → lookup id (keep_session j m ms) ≡ lookup id ms
unfolding lookup
keep_session-other id j [] ms h = refl
keep_session-other id j (f ∷ m) ms h = rw h refl

keep_session-same :
    (id j key : String) (m : Map Fact) (ms : Map (Map Fact)) {f : Fact}
    → (j == id) ≡ true
    → lookup key m ≡ some f
    → lookup id (keep_session j m ms) ≡ some m
unfolding lookup
keep_session-same id j key [] ms h l = absurd (cc)
keep_session-same id j key (g ∷ m) ms h l = rw h refl

clean_sessions-IsClean : (now : ℕ) (ms : Map (Map Fact)) → IsClean now (clean_sessions now ms).0
clean_sessions-IsClean now [] = tt
clean_sessions-IsClean now ((id, m) ∷ ms) =
    keep_session-IsClean now id (clean_facts now m).0 (clean_sessions now ms).0
      (clean_facts-AllLive now m) (clean_sessions-IsClean now ms)

clean_sessions-facts :
    (now : ℕ) (ms : Map (Map Fact))
    → let (ms', n) = clean_sessions now ms in facts_in ms' + n ≡ facts_in ms
clean_sessions-facts now [] = omega arith
clean_sessions-facts now ((id, m) ∷ ms) = omega (
  arith,
  keep_session-facts id (clean_facts now m).0 (clean_sessions now ms).0,
  clean_facts-length now m,
  clean_sessions-facts now ms,
)

clean_sessions-lookup :
    (now : ℕ) (id key : String) (ms : Map (Map Fact)) (m : Map Fact) (f : Fact)
    → lookup id ms ≡ some m
    → lookup key m ≡ some f
    → is_expired now f ≡ false
    → (m' : Map Fact) × (lookup id (clean_sessions now ms).0 ≡ some m') × (lookup key m' ≡ some f)
unfolding lookup
clean_sessions-lookup now id key [] m f h l e = absurd (cc)
clean_sessions-lookup now id key ((j, m0) ∷ ms) m f h l e =
    let (m1, n) = clean_facts now m0 in
    let ms1 = (clean_sessions now ms).0 in
    elim (Bool-cases (j == id)) [
      | inl z ↦
          let kept =
            clean_facts-lookup now key m0 f
              (subst (λ (x : Map Fact). lookup key x ≡ some f) (sym (some_eq (rw (z, lookup) at h)))
                l)
              e in
          (m1, keep_session-same id j key m1 ms1 z kept, kept)
      | inr z ↦
          let (m', found_, there) =
            clean_sessions-lookup now id key ms m f (rw (z, lookup) at h) l e in
          (m', keep_session-other id j m1 ms1 z ∙ found_, there)
    ]

-- What it is for a fact to be found.
abbrev Has : ℕ → String → String → Fact → FactStore → Type 0
Has now id key f s =
    (m : Map Fact) × (lookup id s.sessions ≡ some m)
    × (lookup key m ≡ some f)
    × (is_expired now f ≡ false)

get-Has :
    (now : ℕ) (id key : String) (f : Fact) (s : FactStore)
    → get now id key s ≡ found f
    → Has now id key f s
unfolding get get_in
get-Has now id key f s h = elim (Option-cases (lookup id s.sessions)) [
  | inl z ↦ absurd (cc (rw (z, get) at h))
  | inr (m, z) ↦ elim (Option-cases (lookup key m)) [
    | inl y ↦ absurd (cc (rw (z, get, y, get_in) at h))
    | inr (g, y) ↦ elim (Bool-cases (is_expired now g)) [
      | inl x ↦ absurd (cc (rw (z, get, y, x, get_in) at h))
      | inr x ↦
          let same : found g ≡ found f = rw (z, get, y, x, get_in) at h in
          let e : g ≡ f = cc in
          (m, z, y ∙ ap (λ (k : Fact). some k) e, subst (λ k. is_expired now k ≡ false) e x)
    ]
  ]
]

Has-get :
    (now : ℕ) (id key : String) (f : Fact) (s : FactStore)
    → Has now id key f s
    → get now id key s ≡ found f
unfolding get get_in
Has-get now id key f s (m, z, y, x) = rw (z, get, y, get_in, x) refl

-- A cleanup leaves only facts that are not expired, and no session without a fact; it reports the
-- number of facts that it removed; and what could be found at its time can be found after it.
pub cleanup_expired_lem :
    (now : ℕ) (s : FactStore)
    → let (s', n) = cleanup_expired now s in
      IsClean now s'.sessions
      × (facts_in s'.sessions + n ≡ facts_in s.sessions)
      × ((id key : String) (f : Fact) → get now id key s ≡ found f → get now id key s' ≡ found f)
unfolding cleanup_expired get
cleanup_expired_lem now s = (
  clean_sessions-IsClean now s.sessions,
  clean_sessions-facts now s.sessions,
  λ id key f h.
      let (m, z, y, x) = get-Has now id key f s h in
      let (m', kept, there) = clean_sessions-lookup now id key s.sessions m f z y x in
      Has-get now id key f (cleanup_expired now s).0 (m', kept, there, x),
)
