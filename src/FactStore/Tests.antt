-- ===== src/FactStore/Tests.antt =====
-- A store with two sessions, whose facts live for ten.
use manglekit.Common.{◌+◌, ◌≡◌, refl, String, [], ◌∷◌}
use manglekit.FactStore.{Fact, FactStore, get, found, cleanup_expired, is_expired}
use manglekit.FactStore.Port.{TransientFact}
use manglekit.FactStore.Cleanup.{IsClean, facts_in, cleanup_expired_lem}

abbrev fact : Fact
fact = record { subject = "s"; predicate = "p"; object = "o"; graph = "g"; created_at = 0; ttl = 0 }

abbrev store : FactStore
store = record {
  sessions =
      ("a", ("k", record fact { ttl = 10 }) ∷ ("l", record fact { created_at = 5; ttl = 10 }) ∷ [])
      ∷ ("b", ("k", record fact { ttl = 3 }) ∷ [])
      ∷ [];
  ttl = 10;
}

cleanup_expired_lem_example :
    let (s', n) = cleanup_expired 12 store in
    IsClean 12 s'.sessions
    × (facts_in s'.sessions + n ≡ facts_in store.sessions)
    × ((id key : String) (f : Fact) → get 12 id key store ≡ found f → get 12 id key s' ≡ found f)
cleanup_expired_lem_example = cleanup_expired_lem 12 store

two_removed : (cleanup_expired 12 store).1 ≡ 2
unfolding cleanup_expired is_expired
two_removed = refl

abbrev port_fact : TransientFact
port_fact = record { subject = "s"; predicate = "p"; object = "o"; graph = "g"; created_at = "" }
