-- ===== src/SessionStore/Tests.antt =====
-- A store with one session.
use manglekit.Common.{◌≡◌, List, [], ◌∷◌, length, All}
use manglekit.Workflow.Instance.{WorkflowInstance, new_workflow_instance}
use manglekit.SessionStore.{SessionStore, new_session_store, index, list_session}
use manglekit.SessionStore.Index.{IsIndexed, new-IsIndexed}
use manglekit.SessionStore.Calls.{
  Call, create_call, delete_call, clear_call, serve_all, serve_all-IsIndexed,
}
use manglekit.SessionStore.Laws.{list_session-IsIndexed}

abbrev first : WorkflowInstance
first = new_workflow_instance "b:c" "a"

abbrev second : WorkflowInstance
second = new_workflow_instance "c" "a:b"

abbrev calls : List Call
calls =
    create_call first
    ∷ delete_call "a:b"
    ∷ create_call (new_workflow_instance "d" "a")
    ∷ clear_call "z"
    ∷ []

serve_all-IsIndexed_example : IsIndexed (serve_all calls new_session_store)
serve_all-IsIndexed_example = serve_all-IsIndexed calls new_session_store tt new-IsIndexed

abbrev one_session : SessionStore
one_session = record { sessions = ("a:b:c", first) ∷ []; by_session = ("a", "a:b:c" ∷ []) ∷ [] }

list_session-IsIndexed_example :
    All
      (λ (i : WorkflowInstance). i.session_id ≡ "a")
      (list_session "a" (serve_all calls new_session_store))
    × (length (list_session "a" (serve_all calls new_session_store))
        ≡ length (index (serve_all calls new_session_store) "a"))
list_session-IsIndexed_example =
    list_session-IsIndexed "a" (serve_all calls new_session_store) serve_all-IsIndexed_example
