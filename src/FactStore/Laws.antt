-- ===== src/FactStore/Laws.antt =====
-- What is found after a fact was put.
use manglekit.Common.{
  ℕ, ◌≡◌, refl, String, false, Bool-cases, ◌==◌, Map, insert, lookup-insert, if◌then◌else◌, inl,
  inr,
}
use manglekit.FactStore.{
  Fact, FactStore, is_expired, failed, found, expired, fact_not_found, session_not_found, facts_of,
  stamped, put, get_in, get,
}

-- The answer for a fact that is there.
abbrev pub answer : ℕ → Fact → manglekit.FactStore.Found Fact
answer now f = if is_expired now f then failed expired else found f

get_in-insert :
    (now : ℕ) (key key' : String) (f : Fact) (m : Map Fact)
    → get_in now key' (insert key f m) ≡ (if key == key' then answer now f else get_in now key' m)
unfolding get_in
get_in-insert now key key' f m = elim (Bool-cases (key == key')) [
  | inl z ↦ rw (z, get_in, lookup-insert key key' f m, z) refl
  | inr z ↦ rw (z, get_in, lookup-insert key key' f m, z) refl
]

pub get-put :
    (now later : ℕ) (id key id' key' : String) (f : Fact) (s : FactStore)
    → (id == "") ≡ false
    → (key == "") ≡ false
    → get later id' key' (put now id key f s).0 ≡ (
        if id == id'
        then if key == key'
          then answer later (stamped now s f)
          else get_in later key' (facts_of id s)
        else get later id' key' s)
unfolding put get
get-put now later id key id' key' f s hi hk =
    let m = facts_of id s in
    let stored = lookup-insert id id' (insert key (stamped now s f) m) s.sessions in
    elim (Bool-cases (id == id')) [
      | inl z ↦
          rw (hi, hk, put, z, get, stored, z) (get_in-insert later key key' (stamped now s f) m)
      | inr z ↦ rw (hi, hk, put, z, get, stored, z) refl
    ]
