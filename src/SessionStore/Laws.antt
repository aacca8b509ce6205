-- ===== src/SessionStore/Laws.antt =====
-- What a caller of the store sees.
use Prim.Native.String.{◌++◌ as join}
use text.Mathlib.TextLemmas.{append_assoc}
use manglekit.Common.{
  String, ◌≡◌, refl, ap, true, ◌==◌, none, some, Option-cases, inl, inr, List, [], ◌∷◌, arith,
  lookup, lookup-insert, lookup-remove, contains, length, All, if◌then◌else◌, eq_iff, eq_refl, suc,
}
use manglekit.Workflow.Instance.{WorkflowInstance, session_key}
use manglekit.SessionStore.{
  SessionStore, already_exists, not_found, index, create, get, update, delete, present,
  list_session,
}
use manglekit.SessionStore.Index.{IsIndexed}

-- `Create` and `Update` share out the cases: where the key is free `Create` stores the instance and
-- `Update` is refused, where it is taken `Update` stores it and `Create` is refused; a stored
-- instance is what `Get` returns for its key, other keys are not touched, and a refused call
-- changes nothing.
pub get-write :
    (i : WorkflowInstance) (s : SessionStore) (k : String)
    → let key = session_key i in
      (get key s ≡ none
        → ((create i s).1 ≡ none)
          × (get k (create i s).0 ≡ (if key == k then some i else get k s))
          × (update i s ≡ (s, some not_found)))
      × ((old : WorkflowInstance)
          → get key s ≡ some old
          → (create i s ≡ (s, some already_exists))
            × ((update i s).1 ≡ none)
            × (get k (update i s).0 ≡ (if key == k then some i else get k s)))
unfolding get create update
get-write i s k = (
  λ h. ground (arith, lookup-insert (session_key i) k i s.sessions),
  λ old h. ground (arith, lookup-insert (session_key i) k i s.sessions),
)

pub get-delete :
    (key : String) (s : SessionStore) (k : String)
    → get k (delete key s) ≡ (if key == k then none else get k s)
unfolding get delete
get-delete key s k = elim (Option-cases (lookup key s.sessions)) [
  | inl z ↦ rw (z, delete) (ground (arith, eq_iff key k))
  | inr (i, z) ↦ rw (z, delete) (lookup-remove key k s.sessions)
]

present-All :
    (sid : String) (ks : List String) (s : SessionStore)
    → ((k : String)
        → contains ks k ≡ true
        → (i : WorkflowInstance) × (lookup k s.sessions ≡ some i) × (i.session_id ≡ sid))
    → All (λ i. i.session_id ≡ sid) (present ks s.sessions)
      × (length (present ks s.sessions) ≡ length ks)
unfolding present
present-All sid [] s h = (tt, refl)
present-All sid (k ∷ ks) s h =
    let (i, l, t) = h k (rw (eq_refl k)) in
    let (all, same) = present-All sid ks s (λ j c. h j (ground arith)) in
    rw (l, present) ((t, all), ap suc same)

-- `List` returns one instance for each key of the session's index, and every one of them is of that
-- session, where the index and the map say the same.
pub list_session-IsIndexed :
    (sid : String) (s : SessionStore)
    → IsIndexed s
    → All (λ i. i.session_id ≡ sid) (list_session sid s)
      × (length (list_session sid s) ≡ length (index s sid))
unfolding list_session
list_session-IsIndexed sid s h = present-All sid (index s sid) s (h.held sid)

-- Two sessions that are told apart only by where the colon stands have one key, so the second
-- cannot be created while the first is stored.
pub create-same_key :
    (a b c : String) (i j : WorkflowInstance) (s : SessionStore)
    → i.session_id ≡ a
    → i.workflow_id ≡ join b (join ":" c)
    → j.session_id ≡ join a (join ":" b)
    → j.workflow_id ≡ c
    → get (session_key i) s ≡ some i
    → create j s ≡ (s, some already_exists)
unfolding create get session_key
create-same_key a b c i j s hi wi hj wj h =
    let same : join j.session_id (join ":" j.workflow_id)
        ≡ join i.session_id (join ":" i.workflow_id) =
      cc (append_assoc a (join ":" b) (join ":" c), append_assoc ":" b (join ":" c)) in
    rw (same, h, create)
