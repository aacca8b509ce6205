-- ===== src/Workflow/Loop/Outcome.antt =====
-- What the result of a walk says of the nodes that it visited.
use mathlib.Core.Path.{subst}
use manglekit.Common.{
  ℕ, zero, suc, ◌+◌, ◌≡◌, refl, ◌⊎◌, inl, inr, String, Option, none, some, Option-cases, Bool-cases,
  [], ◌∷◌, arith, Map, insert, ◌==◌, ltb, All, some_eq,
}
use manglekit.Workflow.{
  Value, Err, running, completed, failed, cancelled, NodeResult, WorkflowResult,
}
use manglekit.Workflow.Loop.{
  Ops, LoopState, Round, stop, go, Round-cases, get_count, after_error, after_next, after_output,
  after_node, visit, round, loop, finish,
}

-- Every node result in the map carries no error.
abbrev pub IsClean : Map NodeResult → Type 0
IsClean m = All (λ e. e.1.error ≡ none) m

pub IsClean-insert :
    (k : String) (r : NodeResult) (m : Map NodeResult)
    → r.error ≡ none
    → IsClean m
    → IsClean (insert k r m)
unfolding insert
IsClean-insert k r [] e h = (e, tt)
IsClean-insert k r ((j, q) ∷ m) e h =
    let ih = IsClean-insert k r m e h.1 in
    elim (Bool-cases (j == k)) [
      | inl z ↦ rw (z, insert) (e, h.1)
      | inr z ↦ rw (z, insert) (h.0, ih)
    ]

module _ {World : Type 0} where
  -- The error is what the context answered at some time.
  abbrev pub FromContext : (World → Option Err × World) → Option Err → Type 0
  FromContext ctx_err error = (w : World) × (e : Err) × ((ctx_err w).0 ≡ some e) × (error ≡ some e)

  -- Between two rounds.
  pub record IsGoing (s : LoopState World) : Type 0 where
    pub is_running : s.result.status ≡ running
    pub no_error : s.result.error ≡ none
    pub clean : s.last_error ≡ none → IsClean s.result.node_results

  -- After the last round.
  pub record IsEnded (ctx_err : World → Option Err × World) (s : LoopState World) : Type 0 where
    pub status :
        (s.result.status ≡ running) ⊎ (s.result.status ≡ failed) ⊎ (s.result.status ≡ cancelled)
    pub no_error : s.result.status ≡ running → s.result.error ≡ none
    pub clean : s.result.status ≡ running → s.last_error ≡ none → IsClean s.result.node_results
    pub why : s.result.status ≡ cancelled → FromContext ctx_err s.result.error

module _ {World N : Type 0} (ops : Ops World N) (max_retries : ℕ) where
  open ops use {id, ctx_err, exec, error_edge, next}

  abbrev After : Round World N → Type 0
  After (stop s) = IsEnded ctx_err s
  After (go n s) = IsGoing s

  after_error-After :
      (n : N) (e : Err) (s : LoopState World)
      → s.result.status ≡ running
      → s.result.error ≡ none
      → After (after_error ops max_retries n e s)
  unfolding after_error
  after_error-After n e s st er = ground arith

  after_output-After :
      (n : N) (v : Value) (s : LoopState World)
      → IsGoing s
      → After (after_output ops max_retries n v s)
  unfolding after_output after_next
  after_output-After n v s h = ground arith

  after_node-After :
      (n : N) (r : NodeResult) (s : LoopState World)
      → IsGoing s
      → After (after_node ops max_retries n r s)
  unfolding after_node
  after_node-After n r s h =
      let s1 = record s {
        result = record (s.result) { node_results = insert (id n) r s.result.node_results };
      } in
      elim (Option-cases r.error) [
        | inl z ↦
            rw (z, after_node)
              (after_output-After n r.output s1 (record {
                is_running = h.is_running;
                no_error = h.no_error;
                clean = λ l. IsClean-insert (id n) r s.result.node_results z (h.clean l);
              }))
        | inr (e, z) ↦ rw (z, after_node) (after_error-After n e s1 h.is_running h.no_error)
      ]

  visit-After : (n : N) (s : LoopState World) → IsGoing s → After (visit ops max_retries n s)
  unfolding visit
  visit-After n s h =
      let count = get_count (id n) s.visited + 1 in
      let s1 = record s { visited = insert (id n) count s.visited } in
      let (r, w) = exec n s1.input s1.outputs s1.world in
      elim (Bool-cases (ltb max_retries count)) [
        | inl z ↦ rw (z, visit) (ground arith)
        | inr z ↦
            rw (z, visit)
              (after_node-After n r (record s1 { world = w })
                (record { is_running = h.is_running; no_error = h.no_error; clean = h.clean }))
      ]

  round-After : (n : N) (s : LoopState World) → IsGoing s → After (round ops max_retries n s)
  unfolding round
  round-After n s h =
      let s1 = record s { world = (ctx_err s.world).1 } in
      elim (Option-cases (ctx_err s.world).0) [
        | inl z ↦
            rw (z, round)
              (visit-After n s1
                (record { is_running = h.is_running; no_error = h.no_error; clean = h.clean }))
        | inr (x, z) ↦
            rw (z, round)
              (record {
                status = inr (inr refl);
                no_error = λ e. absurd (cc e);
                clean = λ e. absurd (cc e);
                why = λ _. (s.world, x, z, refl);
              })
      ]

  pub loop-IsEnded :
      (fuel : ℕ) (n : N) (s : LoopState World) {s' : LoopState World}
      → IsGoing s
      → loop ops max_retries fuel n s ≡ some s'
      → IsEnded ctx_err s'
  unfolding loop
  loop-IsEnded zero n s h e = absurd (cc)
  loop-IsEnded (suc fuel) n s h e = elim (Round-cases (round ops max_retries n s)) [
    | inl (t, z) ↦
        subst (λ u. IsEnded ctx_err u) (some_eq (rw (z, loop) at e)) (rw z at (round-After n s h))
    | inr (n', t, z) ↦ loop-IsEnded fuel n' t (rw z at (round-After n s h)) (rw (z, loop) at e)
  ]

module _ {World : Type 0} (ctx_err : World → Option Err × World) where
  -- What the caller reads off the result.
  pub record IsHonest (r : WorkflowResult) : Type 0 where
    pub status : (r.status ≡ completed) ⊎ (r.status ≡ failed) ⊎ (r.status ≡ cancelled)
    pub completed_clean : r.status ≡ completed → (r.error ≡ none) × IsClean r.node_results
    pub cancelled_why : r.status ≡ cancelled → FromContext ctx_err r.error

  pub finish-IsHonest : (s : LoopState World) → IsEnded ctx_err s → IsHonest (finish s)
  unfolding finish
  finish-IsHonest s h = ground arith
