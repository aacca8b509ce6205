-- ===== src/SessionStore/Calls.antt =====
-- Sequences of calls of a store.
use manglekit.Common.{String, ◌≡◌, some, List, [], ◌∷◌, lookup}
use manglekit.Workflow.Instance.{WorkflowInstance, session_key}
use manglekit.SessionStore.{SessionStore, create, update, delete, clear_session}
use manglekit.SessionStore.Index.{IsIndexed, create-IsIndexed, update-IsIndexed}
use manglekit.SessionStore.Removal.{delete-IsIndexed, clear_session-IsIndexed}

-- The calls that change the store.
pub data Call : Type 0 where
  create_call : WorkflowInstance → Call
  update_call : WorkflowInstance → Call
  delete_call : String → Call
  clear_call : String → Call

unfoldable pub serve : Call → SessionStore → SessionStore
serve (create_call i) s = (create i s).0
serve (update_call i) s = (update i s).0
serve (delete_call k) s = delete k s
serve (clear_call sid) s = clear_session sid s

unfoldable pub serve_all : List Call → SessionStore → SessionStore
serve_all [] s = s
serve_all (c ∷ cs) s = serve_all cs (serve c s)

-- Each update writes back an instance of the session that its key was filed for.
abbrev pub KeepsSession : List Call → SessionStore → Type 0
KeepsSession [] s = Unit
KeepsSession (update_call i ∷ cs) s =
    ((old : WorkflowInstance)
      → lookup (session_key i) s.sessions ≡ some old
      → old.session_id ≡ i.session_id)
    × KeepsSession cs (serve (update_call i) s)
KeepsSession (c ∷ cs) s = KeepsSession cs (serve c s)

-- From a store whose index fits its map, as a new one does, every sequence of calls in which an
-- update writes back an instance of the session that its key was filed for keeps the two together:
-- each instance is filed under its own key and listed for its session, and each listed key has an
-- instance of that session.
pub serve_all-IsIndexed :
    (cs : List Call) (s : SessionStore)
    → KeepsSession cs s
    → IsIndexed s
    → IsIndexed (serve_all cs s)
unfolding serve_all serve
serve_all-IsIndexed [] s ok h = h
serve_all-IsIndexed (create_call i ∷ cs) s ok h =
    serve_all-IsIndexed cs (create i s).0 ok (create-IsIndexed i s h)
serve_all-IsIndexed (update_call i ∷ cs) s ok h =
    serve_all-IsIndexed cs (update i s).0 ok.1 (update-IsIndexed i s h ok.0)
serve_all-IsIndexed (delete_call k ∷ cs) s ok h =
    serve_all-IsIndexed cs (delete k s) ok (delete-IsIndexed k s h)
serve_all-IsIndexed (clear_call sid ∷ cs) s ok h =
    serve_all-IsIndexed cs (clear_session sid s) ok (clear_session-IsIndexed sid s h)
