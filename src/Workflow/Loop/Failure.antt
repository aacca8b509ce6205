-- ===== src/Workflow/Loop/Failure.antt =====
-- A node that fails decides the end of the walk, also where an error edge leads on from it.
use mathlib.Core.Path.{subst}
use manglekit.Common.{
  ℕ, zero, suc, ◌+◌, ◌≡◌, ◌≢◌, inl, inr, none, some, some_eq, Option-cases, Bool-cases, arith,
  insert, ltb,
}
use manglekit.Workflow.{Value, Err, running, completed, NodeResult}
use manglekit.Workflow.Loop.{
  Ops, LoopState, Round, stop, go, Round-cases, get_count, after_error, after_next, after_output,
  after_node, visit, round, loop, finish,
}

-- A failure is noted, or the status already says that the walk did not complete.
abbrev pub Noted : {World : Type 0} → LoopState World → Type 0
Noted s = (s.last_error ≢ none) × (s.result.status ≢ completed)

module _ {World N : Type 0} (ops : Ops World N) (max_retries : ℕ) where
  open ops use {id, ctx_err, exec, error_edge, next}

  abbrev AfterNoted : Round World N → Type 0
  AfterNoted (stop s) = Noted s
  AfterNoted (go n s) = Noted s

  after_error-Noted :
      (n : N) (e : Err) (s : LoopState World)
      → s.result.status ≢ completed
      → AfterNoted (after_error ops max_retries n e s)
  unfolding after_error
  after_error-Noted n e s h = ground arith

  after_output-Noted :
      (n : N) (v : Value) (s : LoopState World)
      → Noted s
      → AfterNoted (after_output ops max_retries n v s)
  unfolding after_output after_next
  after_output-Noted n v s h = ground arith

  after_node-Noted :
      (n : N) (r : NodeResult) (s : LoopState World)
      → Noted s
      → AfterNoted (after_node ops max_retries n r s)
  unfolding after_node
  after_node-Noted n r s h =
      let s1 = record s {
        result = record (s.result) { node_results = insert (id n) r s.result.node_results };
      } in
      elim (Option-cases r.error) [
        | inl z ↦ rw (z, after_node) (after_output-Noted n r.output s1 h)
        | inr (e, z) ↦ rw (z, after_node) (after_error-Noted n e s1 h.1)
      ]

  visit-Noted : (n : N) (s : LoopState World) → Noted s → AfterNoted (visit ops max_retries n s)
  unfolding visit
  visit-Noted n s h =
      let count = get_count (id n) s.visited + 1 in
      let s1 = record s { visited = insert (id n) count s.visited } in
      let (r, w) = exec n s1.input s1.outputs s1.world in
      elim (Bool-cases (ltb max_retries count)) [
        | inl z ↦ rw (z, visit) (h.0, λ c. cc)
        | inr z ↦ rw (z, visit) (after_node-Noted n r (record s1 { world = w }) h)
      ]

  round-Noted : (n : N) (s : LoopState World) → Noted s → AfterNoted (round ops max_retries n s)
  unfolding round
  round-Noted n s h =
      let s1 = record s { world = (ctx_err s.world).1 } in
      elim (Option-cases (ctx_err s.world).0) [
        | inl z ↦ rw (z, round) (visit-Noted n s1 h)
        | inr (e, z) ↦ rw (z, round) (h.0, λ c. cc)
      ]

  loop-Noted :
      (fuel : ℕ) (n : N) (s : LoopState World) {s' : LoopState World}
      → Noted s
      → loop ops max_retries fuel n s ≡ some s'
      → Noted s'
  unfolding loop
  loop-Noted zero n s h e = absurd (cc)
  loop-Noted (suc fuel) n s h e = elim (Round-cases (round ops max_retries n s)) [
    | inl (t, z) ↦ subst (λ u. Noted u) (some_eq (rw (z, loop) at e)) (rw z at (round-Noted n s h))
    | inr (n', t, z) ↦ loop-Noted fuel n' t (rw z at (round-Noted n s h)) (rw (z, loop) at e)
  ]

  finish-ne_completed : (s : LoopState World) → Noted s → (finish s).status ≢ completed
  unfolding finish
  finish-ne_completed s h = ground arith

  -- A walk that goes on over the error edge of a node that failed never reports that it completed,
  -- however well the nodes after that edge do.
  pub error_edge-ne_completed :
      (n : N) (e : Err) (s : LoopState World) {n' : N} {s1 s2 : LoopState World} (fuel : ℕ)
      → s.result.status ≡ running
      → after_error ops max_retries n e s ≡ go n' s1
      → loop ops max_retries fuel n' s1 ≡ some s2
      → (finish s2).status ≢ completed
  error_edge-ne_completed n e s {n'} {s1} {s2} fuel st goes ends =
      let noted : Noted s1 = rw goes at (after_error-Noted n e s (λ c. cc)) in
      finish-ne_completed s2 (loop-Noted fuel n' s1 noted ends)
