-- ===== src/SessionStore/Index.antt =====
-- The index of sessions and the map of instances say the same.
use manglekit.Common.{
  String, ◌≡◌, inl, inr, ◌∙◌, true, ◌==◌, eq_iff, none, some, Option-cases, Bool-cases, [], ◌∷◌,
  ◌++◌, arith, lookup, lookup-insert, contains, if◌then◌else◌,
}
use manglekit.Workflow.Instance.{WorkflowInstance, session_key}
use manglekit.Workflow.Instance.Progress.{contains-append}
use manglekit.SessionStore.{SessionStore, new_session_store, index, create, update}

-- Every instance is filed under its own key, and its key is listed for its session; every key that
-- is listed for a session has an instance of that session.
pub record IsIndexed (s : SessionStore) : Type 0 where
  pub filed :
      (k : String) (i : WorkflowInstance)
      → lookup k s.sessions ≡ some i
      → (session_key i ≡ k) × (contains (index s i.session_id) k ≡ true)
  pub held :
      (sid k : String)
      → contains (index s sid) k ≡ true
      → (i : WorkflowInstance) × (lookup k s.sessions ≡ some i) × (i.session_id ≡ sid)

pub new-IsIndexed : IsIndexed new_session_store
unfolding new_session_store index lookup
new-IsIndexed = record { filed = λ k i h. absurd (cc); held = λ sid k h. absurd (cc) }

index-create :
    (i : WorkflowInstance) (s : SessionStore) (sid : String)
    → lookup (session_key i) s.sessions ≡ none
    → index (create i s).0 sid
      ≡ (if i.session_id == sid then index s sid ++ (session_key i ∷ []) else index s sid)
unfolding create index
index-create i s sid h = ground (
  arith,
  lookup-insert i.session_id sid (index s i.session_id ++ (session_key i ∷ [])) s.by_session,
  eq_iff i.session_id sid,
)

sessions-create :
    (i : WorkflowInstance) (s : SessionStore) (k : String)
    → lookup (session_key i) s.sessions ≡ none
    → lookup k (create i s).0.sessions
      ≡ (if session_key i == k then some i else lookup k s.sessions)
unfolding create
sessions-create i s k h = ground (arith, lookup-insert (session_key i) k i s.sessions)

pub create-IsIndexed :
    (i : WorkflowInstance) (s : SessionStore) → IsIndexed s → IsIndexed (create i s).0
create-IsIndexed i s h = elim (Option-cases (lookup (session_key i) s.sessions)) [
  | inr (old, z) ↦ unfold create in rw (z, create) h
  | inl z ↦ record {
    filed = λ k j e. ground (
      arith,
      sessions-create i s k z,
      index-create i s j.session_id z,
      contains-append (index s j.session_id) (session_key i) k,
      eq_iff (session_key i) k,
      eq_iff i.session_id j.session_id,
      h.filed k j,
    );
    held = λ sid k e. elim (Bool-cases (session_key i == k)) [
      | inl y ↦ (
        i,
        sessions-create i s k z ∙ rw y,
        ground (
          arith,
          index-create i s sid z,
          eq_iff (session_key i) k,
          eq_iff i.session_id sid,
          h.held sid k,
        ),
      )
      | inr y ↦
          let (j, l, t) = h.held sid k (
            ground
              (arith, index-create i s sid z, contains-append (index s sid) (session_key i) k)) in
          (j, sessions-create i s k z ∙ rw y l, t)
    ];
  }
]

-- Writing back an instance keeps the index, if it is still of the session that it was filed for.
pub update-IsIndexed :
    (i : WorkflowInstance) (s : SessionStore)
    → IsIndexed s
    → ((old : WorkflowInstance)
        → lookup (session_key i) s.sessions ≡ some old
        → old.session_id ≡ i.session_id)
    → IsIndexed (update i s).0
update-IsIndexed i s h same = elim (Option-cases (lookup (session_key i) s.sessions)) [
  | inl z ↦ unfold update in rw (z, update) h
  | inr (old, z) ↦
      let stays = same old z in
      let listed = h.filed (session_key i) old z in
      unfold update index in
      rw (z, update)
        (record {
          filed = λ k j e. ground (
            arith,
            lookup-insert (session_key i) k i s.sessions,
            eq_iff (session_key i) k,
            h.filed k j,
            listed,
          );
          held = λ sid k e. elim (Bool-cases (session_key i == k)) [
            | inl y ↦
                let (j, l, t) = h.held sid k e in
                (
                  i,
                  lookup-insert (session_key i) k i s.sessions ∙ rw y,
                  ground (arith, eq_iff (session_key i) k),
                )
            | inr y ↦
                let (j, l, t) = h.held sid k e in
                (j, lookup-insert (session_key i) k i s.sessions ∙ rw y l, t)
          ];
        })
]
