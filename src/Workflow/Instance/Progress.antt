-- ===== src/Workflow/Instance/Progress.antt =====
-- What a sequence of updates leaves in an instance.
use manglekit.Common.{
  ℕ, ◌+◌, ◌≡◌, refl, inl, inr, String, Bool, true, false, not, ◌&&◌, ◌||◌, ◌==◌, eq_iff, List, [],
  ◌∷◌, ◌++◌, arith, contains, if◌then◌else◌, Bool-cases,
}
use manglekit.Workflow.{Value}
use manglekit.Workflow.Loop.{get_count}
use manglekit.Workflow.Loop.Termination.{get_count-insert}
use manglekit.Workflow.Instance.{
  WorkflowInstance, is_node_completed, set_current_node, mark_node_completed, mark_node_failed,
  increment_counter, get_counter, set_variable,
}

-- The calls that change an instance.
pub data Update : Type 0 where
  move : String → Update
  complete : String → Update
  fail : String → Update
  count : String → Update
  store : String → Value → Update

unfoldable pub apply : Update → WorkflowInstance → WorkflowInstance
apply (move id) wi = set_current_node id wi
apply (complete id) wi = mark_node_completed id wi
apply (fail id) wi = mark_node_failed id wi
apply (count name) wi = (increment_counter name wi).0
apply (store k v) wi = set_variable k v wi

unfoldable pub apply_all : List Update → WorkflowInstance → WorkflowInstance
apply_all [] wi = wi
apply_all (u ∷ us) wi = apply_all us (apply u wi)

-- No text twice.
abbrev pub NoRepeat : List String → Type 0
NoRepeat [] = Unit
NoRepeat (x ∷ xs) = (contains xs x ≡ false) × NoRepeat xs

pub contains-append :
    (xs : List String) (y x : String) → contains (xs ++ (y ∷ [])) x ≡ (contains xs x || y == x)
contains-append [] y x = ground arith
contains-append (z ∷ xs) y x = ground (arith, contains-append xs y x)

NoRepeat-append :
    (xs : List String) (y : String)
    → contains xs y ≡ false
    → NoRepeat xs
    → NoRepeat (xs ++ (y ∷ []))
NoRepeat-append [] y h r = (refl, tt)
NoRepeat-append (x ∷ xs) y h r = (
  ground (arith, contains-append xs y x, eq_iff x y, eq_iff y x),
  NoRepeat-append xs y (ground arith) r.1,
)

-- Adding a node that is not there yet, which is what each of the two marking calls does.
add_once : Bool → List String → String → List String
add_once wanted xs y = if wanted && not (contains xs y) then xs ++ (y ∷ []) else xs

add_once-NoRepeat :
    (wanted : Bool) (xs : List String) (y : String) → NoRepeat xs → NoRepeat (add_once wanted xs y)
unfolding add_once
add_once-NoRepeat false xs y r = r
add_once-NoRepeat true xs y r = elim (Bool-cases (contains xs y)) [
  | inl z ↦ rw (z, add_once) r
  | inr z ↦ rw (z, add_once) (NoRepeat-append xs y z r)
]

add_once-keeps :
    (wanted : Bool) (xs : List String) (y x : String)
    → contains xs x ≡ true
    → contains (add_once wanted xs y) x ≡ true
unfolding add_once
add_once-keeps wanted xs y x h = ground (arith, contains-append xs y x)

-- The completed nodes after an update.
completed_after : Update → WorkflowInstance → List String
completed_after (move id) wi =
    add_once (not (wi.current_node_id == "")) wi.completed_nodes wi.current_node_id
completed_after (complete id) wi = add_once true wi.completed_nodes id
completed_after _ wi = wi.completed_nodes

completed_nodes-apply :
    (u : Update) (wi : WorkflowInstance) → (apply u wi).completed_nodes ≡ completed_after u wi
unfolding apply completed_after add_once set_current_node mark_node_completed mark_node_failed
    increment_counter set_variable is_node_completed
completed_nodes-apply (move id) wi = ground arith
completed_nodes-apply (complete id) wi = ground arith
completed_nodes-apply _ wi = refl

apply-NoRepeat :
    (u : Update) (wi : WorkflowInstance)
    → NoRepeat wi.completed_nodes
    → NoRepeat (apply u wi).completed_nodes
unfolding completed_after
apply-NoRepeat u wi r = rw completed_nodes-apply (go u)
  where
    go : (v : Update) → NoRepeat (completed_after v wi)
    go (move id) =
        add_once-NoRepeat (not (wi.current_node_id == "")) wi.completed_nodes wi.current_node_id r
    go (complete id) = add_once-NoRepeat true wi.completed_nodes id r
    go _ = r

apply-keeps :
    (u : Update) (wi : WorkflowInstance) (id : String)
    → contains wi.completed_nodes id ≡ true
    → contains (apply u wi).completed_nodes id ≡ true
unfolding completed_after
apply-keeps u wi id h = rw completed_nodes-apply (go u)
  where
    go : (v : Update) → contains (completed_after v wi) id ≡ true
    go (move j) =
        add_once-keeps (not (wi.current_node_id == "")) wi.completed_nodes wi.current_node_id id h
    go (complete j) = add_once-keeps true wi.completed_nodes j id h
    go _ = h

-- How often a name is counted.
abbrev pub times : String → List Update → ℕ
times name [] = 0
times name (count k ∷ us) = (if k == name then 1 else 0) + times name us
times name (_ ∷ us) = times name us

get_counter-apply :
    (u : Update) (us : List Update) (wi : WorkflowInstance) (name : String)
    → get_counter (apply u wi) name + times name us ≡ get_counter wi name + times name (u ∷ us)
unfolding apply get_counter set_current_node mark_node_completed mark_node_failed increment_counter
    set_variable is_node_completed
get_counter-apply (count k) us wi name = ground (
  arith,
  get_count-insert k name (get_count k wi.loop_counters + 1) wi.loop_counters,
  eq_iff k name,
)
get_counter-apply u us wi name = ground arith

-- Whatever updates an instance goes through: if its completed nodes are listed without repetition
-- they stay so, a completed node stays completed, and a counter has grown by the number of times
-- that its name was counted.
pub apply_all_lem :
    (us : List Update) (wi : WorkflowInstance)
    → NoRepeat wi.completed_nodes
    → let wi' = apply_all us wi in
      NoRepeat wi'.completed_nodes
      × ((id : String)
          → contains wi.completed_nodes id ≡ true
          → contains wi'.completed_nodes id ≡ true)
      × ((name : String) → get_counter wi' name ≡ get_counter wi name + times name us)
unfolding apply_all
apply_all_lem [] wi r = (r, λ id h. h, λ name. omega arith)
apply_all_lem (u ∷ us) wi r =
    let (r', kept, counted) = apply_all_lem us (apply u wi) (apply-NoRepeat u wi r) in
    (
      r',
      λ id h. kept id (apply-keeps u wi id h),
      λ name. omega (arith, counted name, get_counter-apply u us wi name),
    )
