-- ===== src/FactStore/Port.antt =====
-- The rest of adapters/storage/session/store.go: quads, and `TransientFactsStore`, the port over the
-- store. How a time is written as text is a parameter.
use manglekit.Common.{
  ℕ, ◌-◌, ◌≡◌, refl, String, false, ◌==◌, Option, List, [], ◌∷◌, ltb, ◌&&◌, ap, ◌∙◌, arith,
  if◌then◌else◌, eq_refl,
}
use manglekit.FactStore.{
  Fact, FactStore, FactError, Found, found, failed, expired, is_expired, stamped, put, get, get_all,
}
use manglekit.FactStore.Laws.{answer, get-put}
use manglekit.SessionState.{Quad}

abbrev quads : List Fact → List Quad
quads [] = []
quads (f ∷ fs) =
    record { subject = f.subject; predicate = f.predicate; object = f.object; graph = f.graph }
    ∷ quads fs

unfoldable pub to_quads : ℕ → String → FactStore → Found (List Quad)
to_quads now id s = elim (get_all now id s) [ failed e ↦ failed e | found fs ↦ found (quads fs) ]

unfoldable pub new_session_fact : String → String → String → String → ℕ → Fact
new_session_fact subject predicate object graph ttl = record {
  subject = subject;
  predicate = predicate;
  object = object;
  graph = graph;
  created_at = 0;
  ttl = ttl;
}

-- TransientFact of the port
pub record TransientFact : Type 0 where
  pub subject : String
  pub predicate : String
  pub object : String
  pub graph : String
  pub created_at : String

-- The fact that the port's `Put` makes, with no time to live of its own.
abbrev pub own_fact : TransientFact → Fact
own_fact f = new_session_fact f.subject f.predicate f.object f.graph 0

unfoldable pub transient_put :
    ℕ → String → String → TransientFact → FactStore → FactStore × Option FactError
transient_put now id key f s = put now id key (own_fact f) s

module _ (format : ℕ → String) where
  abbrev pub transient : Fact → TransientFact
  transient f = record {
    subject = f.subject;
    predicate = f.predicate;
    object = f.object;
    graph = f.graph;
    created_at = format f.created_at;
  }

  unfoldable pub passed_on : Found Fact → Found TransientFact
  passed_on (failed e) = failed e
  passed_on (found f) = found (transient f)

  unfoldable pub transient_get : ℕ → String → String → FactStore → Found TransientFact
  transient_get now id key s = passed_on (get now id key s)

  abbrev transients : List Fact → List TransientFact
  transients [] = []
  transients (f ∷ fs) = transient f ∷ transients fs

  unfoldable pub transient_get_all : ℕ → String → FactStore → Found (List TransientFact)
  transient_get_all now id s = elim (get_all now id s) [
    | failed e ↦ failed e
    | found fs ↦ found (transients fs)
  ]

  passed_on-answer :
      (now later : ℕ) (f : TransientFact) (s : FactStore)
      → passed_on (answer later (stamped now s (own_fact f))) ≡ (
          if ltb 0 s.ttl && ltb s.ttl (later - now)
          then failed expired
          else found (record f { created_at = format now }))
  unfolding is_expired new_session_fact passed_on
  passed_on-answer now later f s = ground arith

  -- A fact put through the port, under a session and a key that are not empty, is read back through
  -- it with the time of the call in the place of its own time, for as long as the store's time to
  -- live says, and forever if that is 0.
  pub transient_get-transient_put :
      (now later : ℕ) (id key : String) (f : TransientFact) (s : FactStore)
      → (id == "") ≡ false
      → (key == "") ≡ false
      → transient_get later id key (transient_put now id key f s).0 ≡ (
          if ltb 0 s.ttl && ltb s.ttl (later - now)
          then failed expired
          else found (record f { created_at = format now }))
  unfolding transient_get transient_put
  transient_get-transient_put now later id key f s hi hk =
      let stored = get-put now later id key id key (own_fact f) s hi hk in
      let there : get later id key (put now id key (own_fact f) s).0
          ≡ answer later (stamped now s (own_fact f)) =
        stored ∙ rw (eq_refl id, eq_refl key) refl in
      ap (λ (r : Found Fact). passed_on r) there ∙ passed_on-answer now later f s
