-- ===== src/SessionStore.antt =====
-- `InMemorySessionStore` of sdk/ports/session_store.go: workflow instances by session key, and the
-- keys of each session. An instance is a value here: what a caller does to the object that `Get`
-- returned, before it calls `Update`, is not in the store.
pub mod Index
pub mod Removal
pub mod Calls
pub mod Laws
mod Tests
use manglekit.Common.{
  ℕ, String, Bool, true, false, ◌==◌, Option, none, some, List, [], ◌∷◌, ◌++◌, Map, lookup, insert,
  remove, length, if◌then◌else◌,
}
use manglekit.Workflow.Instance.{WorkflowInstance, session_key}

pub record SessionStore : Type 0 where
  pub sessions : Map WorkflowInstance
  pub by_session : Map (List String)

unfoldable pub new_session_store : SessionStore
new_session_store = record { sessions = []; by_session = [] }

pub data StoreError : Type 0 where
  already_exists not_found : StoreError

-- `s.bySession[sessionID]`; a missing key reads as the empty slice.
unfoldable pub index : SessionStore → String → List String
index s sid = elim (lookup sid s.by_session) [ none ↦ [] | some ks ↦ ks ]

-- An error changes nothing.
unfoldable pub create : WorkflowInstance → SessionStore → SessionStore × Option StoreError
create i s =
    let key = session_key i in
    elim (lookup key s.sessions) [
      | some old ↦ (s, some already_exists)
      | none ↦ (
        record {
          sessions = insert key i s.sessions;
          by_session = insert i.session_id (index s i.session_id ++ (key ∷ [])) s.by_session;
        },
        none,
      )
    ]

unfoldable pub get : String → SessionStore → Option WorkflowInstance
get key s = lookup key s.sessions

unfoldable pub update : WorkflowInstance → SessionStore → SessionStore × Option StoreError
update i s =
    let key = session_key i in
    elim (lookup key s.sessions) [
      | none ↦ (s, some not_found)
      | some old ↦ (record s { sessions = insert key i s.sessions }, none)
    ]

-- The keys that are kept, `if k != sessionKey`.
unfoldable pub without : String → List String → List String
without k [] = []
without k (j ∷ js) = let rest = without k js in if j == k then rest else j ∷ rest

set_keys : String → List String → Map (List String) → Map (List String)
set_keys sid [] m = remove sid m
set_keys sid (k ∷ ks) m = insert sid (k ∷ ks) m

unfoldable pub delete : String → SessionStore → SessionStore
unfolding set_keys
delete key s = elim (lookup key s.sessions) [
  | none ↦ s
  | some i ↦ record {
    sessions = remove key s.sessions;
    by_session = elim (lookup i.session_id s.by_session) [
      | none ↦ s.by_session
      | some ks ↦ set_keys i.session_id (without key ks) s.by_session
    ];
  }
]

unfoldable pub exists : String → SessionStore → Bool
exists key s = elim (lookup key s.sessions) [ none ↦ false | some i ↦ true ]

-- The instances of the keys that the store has.
unfoldable pub present : List String → Map WorkflowInstance → List WorkflowInstance
present [] m = []
present (k ∷ ks) m = elim (lookup k m) [ none ↦ present ks m | some i ↦ i ∷ present ks m ]

unfoldable pub list_session : String → SessionStore → List WorkflowInstance
list_session sid s = present (index s sid) s.sessions

unfoldable pub remove_all {ℓ} : {V : Type ℓ} → List String → Map V → Map V
remove_all [] m = m
remove_all (k ∷ ks) m = remove_all ks (remove k m)

unfoldable pub clear_session : String → SessionStore → SessionStore
clear_session sid s = elim (lookup sid s.by_session) [
  | none ↦ s
  | some ks ↦ record { sessions = remove_all ks s.sessions; by_session = remove sid s.by_session }
]

unfoldable pub size : SessionStore → ℕ
size s = length s.sessions

unfoldable pub session_count : SessionStore → ℕ
session_count s = length s.by_session
