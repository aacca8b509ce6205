-- ===== src/Policy/Cached.antt =====
-- The cache of parsed facts changes no verdict.
use manglekit.Common.{
  ◌+◌, ◌≤◌, ◌≡◌, refl, sym, ◌∙◌, String, ◌==◌, eq_iff, some, List, [], ◌∷◌, ◌++◌, Map, lookup,
  insert, lookup-insert, length, ltb, arith, Bool-cases, Option-cases, inl, inr, if_cases,
}
use manglekit.Explain.{Atom}
use manglekit.Policy.{Engine}
use manglekit.Policy.Facts.{
  parse_cached_atom, append_facts, append_envelope_facts, max_fact_parse_cache_entries,
  to_mangle_facts, parse_all, labels_to_facts,
}
use manglekit.Policy.Gate.{gate_facts, evaluate_gate_with_trail}
use manglekit.SessionState.{Envelope}

module _ {V : Type 0} where
  length-insert : (k : String) (v : V) (m : Map V) → length (insert k v m) ≤ length m + 1
  unfolding insert
  length-insert k v [] = omega arith
  length-insert k v ((j, w) ∷ m) = ground (arith, length-insert k v m)

module _ (E : Engine) where
  open E use {Constant}

  -- Each entry is what its text parses to, and there are no more than the bound.
  pub record IsCache (cache : Map (Atom Constant)) : Type 0 where
    pub parsed :
        (f : String) (a : Atom Constant) → lookup f cache ≡ some a → E.parse_atom f ≡ some a
    pub bounded : length cache ≤ max_fact_parse_cache_entries

  nil-IsCache : IsCache []
  unfolding lookup
  nil-IsCache = record { parsed = λ f a e. absurd (cc e); bounded = omega arith }

  parse_cached_atom-parse_atom :
      (f : String) (cache : Map (Atom Constant))
      → IsCache cache
      → (parse_cached_atom E f cache).0 ≡ E.parse_atom f
  unfolding parse_cached_atom
  parse_cached_atom-parse_atom f cache h = elim (Option-cases (lookup f cache)) [
    | inr (a, z) ↦ rw (z, parse_cached_atom) (sym (h.parsed f a z))
    | inl z ↦ elim (Option-cases (E.parse_atom f)) [
      | inl y ↦ rw (z, y, parse_cached_atom) refl
      | inr (a, y) ↦ rw (z, y, parse_cached_atom) refl
    ]
  ]

  insert-IsCache :
      (f : String) (a : Atom Constant) (cache : Map (Atom Constant))
      → E.parse_atom f ≡ some a
      → length cache + 1 ≤ max_fact_parse_cache_entries
      → IsCache cache
      → IsCache (insert f a cache)
  insert-IsCache f a cache e room h = record {
    parsed = λ g b l. elim (Bool-cases (f == g)) [
      | inl z ↦
          let same : f ≡ g = (eq_iff f g).0 z in
          rw (← same) (e ∙ rw (lookup-insert f g a cache, z) at l)
      | inr z ↦ h.parsed g b (rw (lookup-insert f g a cache, z) at l)
    ];
    bounded = omega (arith, length-insert f a cache);
  }

  parse_cached_atom-IsCache :
      (f : String) (cache : Map (Atom Constant))
      → IsCache cache
      → IsCache (parse_cached_atom E f cache).1
  unfolding parse_cached_atom
  parse_cached_atom-IsCache f cache h = elim (Option-cases (lookup f cache)) [
    | inr (a, z) ↦ rw (z, parse_cached_atom) h
    | inl z ↦ elim (Option-cases (E.parse_atom f)) [
      | inl y ↦ rw (z, y, parse_cached_atom) h
      | inr (a, y) ↦
          rw (z, y, parse_cached_atom)
            (if_cases IsCache (ltb (length cache) max_fact_parse_cache_entries) _ _
              (λ lt. insert-IsCache f a cache y (ground arith) h) (λ _. h))
    ]
  ]

  -- The facts that two caches give, and the first cache after them.
  append_facts-IsCache :
      (facts : List (Atom Constant)) (fs : List String) (c d : Map (Atom Constant))
      → IsCache c
      → IsCache d
      → ((append_facts E facts fs c).0 ≡ (append_facts E facts fs d).0)
        × ((append_facts E facts fs c).1 ≡ (append_facts E facts fs d).1)
        × IsCache (append_facts E facts fs c).2
  unfolding append_facts
  append_facts-IsCache facts [] c d hc hd = (refl, refl, hc)
  append_facts-IsCache facts (f ∷ fs) c d hc hd =
      let ec = parse_cached_atom-parse_atom f c hc in
      let ed = parse_cached_atom-parse_atom f d hd in
      let kc = parse_cached_atom-IsCache f c hc in
      elim (Option-cases (E.parse_atom f)) [
        | inl z ↦ rw (ec, ed, z, append_facts) (refl, refl, kc)
        | inr (a, z) ↦
            rw (ec, ed, z, append_facts)
              (append_facts-IsCache (facts ++ (a ∷ [])) fs (parse_cached_atom E f c).1
                (parse_cached_atom E f d).1 kc (parse_cached_atom-IsCache f d hd))
      ]

  gate_facts-IsCache :
      (entity : String) (env : Envelope) (extra : List (Atom Constant)) (c d : Map (Atom Constant))
      → IsCache c
      → IsCache d
      → ((gate_facts E entity env extra c).0 ≡ (gate_facts E entity env extra d).0)
        × IsCache (gate_facts E entity env extra c).1
  unfolding gate_facts append_envelope_facts
  gate_facts-IsCache entity env extra c d hc hd =
      elim (Option-cases (to_mangle_facts E entity env.payload env.content_type)) [
        | inl z ↦ rw (z, gate_facts) (refl, hc)
        | inr (facts, z) ↦ elim (Option-cases (parse_all E (labels_to_facts env.security_labels))) [
          | inl y ↦ rw (z, y, gate_facts) (refl, hc)
          | inr (labels, y) ↦
              let (same_end, same_facts, k) =
                append_facts-IsCache ((facts ++ extra) ++ labels) env.facts c d hc hd in
              rw (z, y, gate_facts, same_end, same_facts)
                (elim (Bool-cases (append_facts E ((facts ++ extra) ++ labels) env.facts d).0) [
                  | inl x ↦ rw x (refl, k)
                  | inr x ↦ rw x (refl, k)
                ])
        ]
      ]

  -- Whatever well-formed cache of parsed facts the gate starts from, its verdict and what it does to
  -- the runtime are the same, as with no cache at all; and it leaves the cache well formed: each
  -- entry is what its text parses to, and there are 4096 of them at most.
  pub evaluate_gate_with_trail-IsCache :
      (action entity : String) (env : Envelope) (extra : List (Atom Constant))
      (c : Map (Atom Constant)) (w : E.World)
      → IsCache c
      → let (v, (c', w')) = evaluate_gate_with_trail E action entity env extra (c, w) in
        let (v0, (_, w0)) = evaluate_gate_with_trail E action entity env extra ([], w) in
        (v ≡ v0) × (w' ≡ w0) × IsCache c'
  unfolding evaluate_gate_with_trail
  evaluate_gate_with_trail-IsCache action entity env extra c w h =
      let (same_facts, k) = gate_facts-IsCache entity env extra c [] h nil-IsCache in
      elim (Bool-cases (E.is_ready w)) [
        | inr z ↦ rw (z, evaluate_gate_with_trail) (refl, refl, h)
        | inl z ↦ elim (Option-cases (gate_facts E entity env extra []).0) [
          | inl y ↦ rw (z, same_facts, y, evaluate_gate_with_trail) (refl, refl, k)
          | inr (fs, y) ↦ rw (z, same_facts, y, evaluate_gate_with_trail) (refl, refl, k)
        ]
      ]
