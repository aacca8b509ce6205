-- ===== src/SessionStore/Removal.antt =====
-- What is removed is removed from the index and from the map of instances.
use manglekit.Common.{
  String, ◌≡◌, refl, inl, inr, ◌∙◌, true, false, not, ◌&&◌, ◌==◌, eq_iff, none, some, Option-cases,
  List, [], ◌∷◌, arith, Map, lookup, remove, lookup-insert, lookup-remove, contains, if◌then◌else◌,
}
use manglekit.Workflow.Instance.{WorkflowInstance}
use manglekit.SessionStore.{
  SessionStore, index, without, set_keys, delete, remove_all, clear_session,
}
use manglekit.SessionStore.Index.{IsIndexed}

contains-without :
    (k j : String) (ks : List String) → contains (without k ks) j ≡ (not (k == j) && contains ks j)
unfolding without
contains-without k j [] = ground arith
contains-without k j (i ∷ ks) =
    ground (arith, contains-without k j ks, eq_iff i k, eq_iff i j, eq_iff k j)

lookup-remove_all :
    {V : Type 0} (ks : List String) (m : Map V) (k : String)
    → lookup k (remove_all ks m) ≡ (if contains ks k then none else lookup k m)
unfolding remove_all
lookup-remove_all [] m k = refl
lookup-remove_all (j ∷ ks) m k =
    ground (arith, lookup-remove_all ks (remove j m) k, lookup-remove j k m)

index-set_keys :
    (sid j : String) (ks : List String) (m : Map (List String))
    → elim (lookup j (set_keys sid ks m)) [ none ↦ [] | some ls ↦ ls ]
      ≡ (if sid == j then ks else elim (lookup j m) [ none ↦ [] | some ls ↦ ls ])
unfolding set_keys
index-set_keys sid j [] m = ground (arith, lookup-remove sid j m)
index-set_keys sid j (k ∷ ks) m = ground (arith, lookup-insert sid j (k ∷ ks) m)

-- `delete` of a stored key, with its instance.
index-delete :
    (key : String) (i : WorkflowInstance) (s : SessionStore) (sid : String)
    → lookup key s.sessions ≡ some i
    → index (delete key s) sid
      ≡ (if i.session_id == sid then without key (index s sid) else index s sid)
unfolding delete index without
index-delete key i s sid z = ground (
  arith,
  eq_iff i.session_id sid,
  index-set_keys i.session_id sid (without key (index s i.session_id)) s.by_session,
)

sessions-delete :
    (key : String) (i : WorkflowInstance) (s : SessionStore) (k : String)
    → lookup key s.sessions ≡ some i
    → lookup k (delete key s).sessions ≡ (if key == k then none else lookup k s.sessions)
unfolding delete
sessions-delete key i s k z = ground (arith, lookup-remove key k s.sessions)

pub delete-IsIndexed : (key : String) (s : SessionStore) → IsIndexed s → IsIndexed (delete key s)
delete-IsIndexed key s h = elim (Option-cases (lookup key s.sessions)) [
  | inl z ↦ unfold delete in rw (z, delete) h
  | inr (i, z) ↦ record {
    filed = λ k j e. ground (
      arith,
      sessions-delete key i s k z,
      index-delete key i s j.session_id z,
      contains-without key k (index s j.session_id),
      h.filed k j,
    );
    held = λ sid k e.
        let before : contains (index s sid) k ≡ true =
          ground (arith, index-delete key i s sid z, contains-without key k (index s sid)) in
        let (j, l, t) = h.held sid k before in
        let other : (key == k) ≡ false = ground (
          arith,
          index-delete key i s sid z,
          contains-without key k (index s sid),
          eq_iff key k,
          eq_iff i.session_id sid,
        ) in
        (j, sessions-delete key i s k z ∙ rw other l, t);
  }
]

index-ks :
    (sid : String) (ks : List String) (s : SessionStore)
    → lookup sid s.by_session ≡ some ks
    → index s sid ≡ ks
unfolding index
index-ks sid ks s z = ground arith

index-clear :
    (sid : String) (ks : List String) (s : SessionStore) (t : String)
    → lookup sid s.by_session ≡ some ks
    → index (clear_session sid s) t ≡ (if sid == t then [] else index s t)
unfolding clear_session index
index-clear sid ks s t z = ground (arith, lookup-remove sid t s.by_session)

sessions-clear :
    (sid : String) (ks : List String) (s : SessionStore) (k : String)
    → lookup sid s.by_session ≡ some ks
    → lookup k (clear_session sid s).sessions
      ≡ (if contains ks k then none else lookup k s.sessions)
unfolding clear_session
sessions-clear sid ks s k z = ground (arith, lookup-remove_all ks s.sessions k)

pub clear_session-IsIndexed :
    (sid : String) (s : SessionStore) → IsIndexed s → IsIndexed (clear_session sid s)
clear_session-IsIndexed sid s h = elim (Option-cases (lookup sid s.by_session)) [
  | inl z ↦ unfold clear_session in rw (z, clear_session) h
  | inr (ks, z) ↦ record {
    filed = λ k j e. ground (
      arith,
      sessions-clear sid ks s k z,
      index-clear sid ks s j.session_id z,
      index-ks sid ks s z,
      eq_iff sid j.session_id,
      h.filed k j,
    );
    held = λ t k e.
        let before : contains (index s t) k ≡ true = ground (arith, index-clear sid ks s t z) in
        let (j, l, own) = h.held t k before in
        let kept : contains ks k ≡ false =
          ground
            (arith, index-clear sid ks s t z, index-ks sid ks s z, eq_iff sid t, h.held sid k) in
        (j, sessions-clear sid ks s k z ∙ rw kept l, own);
  }
]
