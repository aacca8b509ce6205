-- ===== src/FactStore.antt =====
-- adapters/storage/session/store.go: the facts of a session, each with a time to live, and the
-- port over them. A time and a duration are numbers of nanoseconds, a negative duration is 0, and
-- the clock is an argument. `Put` stores a fact of its own, as the port gives it one.
pub mod Laws
pub mod Cleanup
pub mod Port
mod Tests
use manglekit.Common.{
  ℕ, zero, suc, ◌+◌, ◌-◌, String, Bool, false, ◌||◌, ◌==◌, Option, none, some, List, [], ◌∷◌, Map,
  lookup, insert, remove, ltb, length, if◌then◌else◌,
}

-- SessionFact
pub record Fact : Type 0 where
  pub subject : String
  pub predicate : String
  pub object : String
  pub graph : String
  pub created_at : ℕ
  pub ttl : ℕ

unfoldable pub is_expired : ℕ → Fact → Bool
is_expired now f = if ltb 0 f.ttl then ltb f.ttl (now - f.created_at) else false

pub record FactStore : Type 0 where
  pub sessions : Map (Map Fact)
  pub ttl : ℕ

-- Ten minutes.
abbrev pub new_session_store : FactStore
new_session_store = record { sessions = []; ttl = 600000000000 }

unfoldable pub set_ttl : ℕ → FactStore → FactStore
set_ttl ttl s = record s { ttl = ttl }

pub data FactError : Type 0 where
  empty_key session_not_found fact_not_found expired : FactError

pub data Found {ℓ} (A : Type ℓ) : Type ℓ where
  found : A → Found A
  failed : FactError → Found A

-- The facts of a session, and none where there is no session.
abbrev pub facts_of : String → FactStore → Map Fact
facts_of id s = elim (lookup id s.sessions) [ none ↦ [] | some m ↦ m ]

-- What `Put` makes of a fact.
abbrev pub stamped : ℕ → FactStore → Fact → Fact
stamped now s f = record f { created_at = now; ttl = if ltb 0 f.ttl then f.ttl else s.ttl }

unfoldable pub put : ℕ → String → String → Fact → FactStore → FactStore × Option FactError
put now id key f s = if id == "" || key == "" then (s, some empty_key) else (
  record s { sessions = insert id (insert key (stamped now s f) (facts_of id s)) s.sessions },
  none,
)

-- `Get` within the facts of a session that is there.
unfoldable pub get_in : ℕ → String → Map Fact → Found Fact
get_in now key m = elim (lookup key m) [
  | none ↦ failed fact_not_found
  | some f ↦ if is_expired now f then failed expired else found f
]

unfoldable pub get : ℕ → String → String → FactStore → Found Fact
get now id key s = elim (lookup id s.sessions) [
  | none ↦ failed session_not_found
  | some m ↦ get_in now key m
]

-- The loop of `GetAll`.
abbrev pub live : ℕ → Map Fact → List Fact
live now [] = []
live now ((k, f) ∷ m) = let rest = live now m in if is_expired now f then rest else f ∷ rest

unfoldable pub get_all : ℕ → String → FactStore → Found (List Fact)
get_all now id s = elim (lookup id s.sessions) [
  | none ↦ failed session_not_found
  | some m ↦ found (live now m)
]

abbrev pub put_back : String → Map Fact → FactStore → FactStore
put_back id [] s = record s { sessions = remove id s.sessions }
put_back id (f ∷ m) s = record s { sessions = insert id (f ∷ m) s.sessions }

unfoldable pub delete : String → String → FactStore → FactStore
delete id key s = elim (lookup id s.sessions) [ none ↦ s | some m ↦ put_back id (remove key m) s ]

unfoldable pub clear_session : String → FactStore → FactStore
clear_session id s = record s { sessions = remove id s.sessions }

abbrev names : Map (Map Fact) → List String
names [] = []
names ((id, m) ∷ ms) = id ∷ names ms

unfoldable pub list_sessions : FactStore → List String
list_sessions s = names s.sessions

unfoldable pub count : FactStore → ℕ
count s = length s.sessions

-- The inner loop of `CleanupExpired`: what it leaves, and how many facts it deleted.
abbrev pub clean_facts : ℕ → Map Fact → Map Fact × ℕ
clean_facts now [] = ([], 0)
clean_facts now ((k, f) ∷ m) =
    let (rest, n) = clean_facts now m in
    if is_expired now f then (rest, n + 1) else ((k, f) ∷ rest, n)

-- A session with no fact left is deleted.
abbrev pub keep_session : String → Map Fact → Map (Map Fact) → Map (Map Fact)
keep_session id [] ms = ms
keep_session id (f ∷ m) ms = (id, f ∷ m) ∷ ms

abbrev pub clean_sessions : ℕ → Map (Map Fact) → Map (Map Fact) × ℕ
clean_sessions now [] = ([], 0)
clean_sessions now ((id, m) ∷ ms) =
    let (m', n) = clean_facts now m in
    let (rest, k) = clean_sessions now ms in (keep_session id m' rest, n + k)

unfoldable pub cleanup_expired : ℕ → FactStore → FactStore × ℕ
cleanup_expired now s =
    let (ms, n) = clean_sessions now s.sessions in (record s { sessions = ms }, n)

-- Atom
pub record Atom : Type 0 where
  pub subject : String
  pub predicate : String
  pub object : String

abbrev atoms : List Fact → List Atom
atoms [] = []
atoms (f ∷ fs) =
    record { subject = f.subject; predicate = f.predicate; object = f.object } ∷ atoms fs

unfoldable pub to_atoms : ℕ → String → FactStore → Found (List Atom)
to_atoms now id s = elim (get_all now id s) [ failed e ↦ failed e | found fs ↦ found (atoms fs) ]
