-- ===== src/Workflow/Loop/Rounds.antt =====
-- One round of the walk, seen from outside: where it goes on, and what it has counted by then.
use manglekit.Common.{
  ℕ, ◌+◌, ◌≤◌, ◌≡◌, ◌⊎◌, inl, inr, some, Bool-cases, Option-cases, arith, Map, insert, ltb, ltb→le,
}
use manglekit.Workflow.{Value, Err, ok, NodeResult}
use manglekit.Workflow.Loop.{
  Ops, LoopState, go, get_count, after_error, after_next, after_output, after_node, visit, round,
}

module _ {World N : Type 0} (ops : Ops World N) (max_retries : ℕ) where
  open ops use {id, ctx_err, exec, error_edge, next}

  -- How a round can go on: over an error edge, or to what `next` answers.
  abbrev pub Leads : N → N → Type 0
  Leads n n' =
      (error_edge n ≡ some (some n'))
      ⊎ ((v : Value) × (m : Map Value) × (w : World) × ((next n v m w).0 ≡ ok (some n')))

  after_error-go :
      (n : N) (e : Err) (s : LoopState World) {n' : N} {s' : LoopState World}
      → after_error ops max_retries n e s ≡ go n' s'
      → Leads n n' × (s'.visited ≡ s.visited)
  unfolding after_error
  after_error-go n e s h = (inl (ground arith), ground arith)

  after_output-go :
      (n : N) (v : Value) (s : LoopState World) {n' : N} {s' : LoopState World}
      → after_output ops max_retries n v s ≡ go n' s'
      → Leads n n' × (s'.visited ≡ s.visited)
  unfolding after_output after_next
  after_output-go n v s h =
      (inr (v, insert (id n) v s.outputs, s.world, ground arith), ground arith)

  after_node-go :
      (n : N) (r : NodeResult) (s : LoopState World) {n' : N} {s' : LoopState World}
      → after_node ops max_retries n r s ≡ go n' s'
      → Leads n n' × (s'.visited ≡ s.visited)
  unfolding after_node
  after_node-go n r s h =
      let s1 = record s {
        result = record (s.result) { node_results = insert (id n) r s.result.node_results };
      } in
      elim (Option-cases r.error) [
        | inl z ↦ after_output-go n r.output s1 (rw (z, after_node) at h)
        | inr (e, z) ↦ after_error-go n e s1 (rw (z, after_node) at h)
      ]

  visit-go :
      (n : N) (s : LoopState World) {n' : N} {s' : LoopState World}
      → visit ops max_retries n s ≡ go n' s'
      → Leads n n'
        × (get_count (id n) s.visited + 1 ≤ max_retries)
        × (s'.visited ≡ insert (id n) (get_count (id n) s.visited + 1) s.visited)
  unfolding visit
  visit-go n s h =
      let count = get_count (id n) s.visited + 1 in
      let s1 = record s { visited = insert (id n) count s.visited } in
      let (r, w) = exec n s1.input s1.outputs s1.world in
      elim (Bool-cases (ltb max_retries count)) [
        | inl z ↦ absurd (cc (rw (z, visit) at h))
        | inr z ↦
            let (leads, same) = after_node-go n r (record s1 { world = w }) (rw (z, visit) at h) in
            (leads, ltb→le max_retries count z, same)
      ]

  -- A round that goes on has counted a visit within the limit, and follows an edge.
  pub round-go :
      (n : N) (s : LoopState World) {n' : N} {s' : LoopState World}
      → round ops max_retries n s ≡ go n' s'
      → Leads n n'
        × (get_count (id n) s.visited + 1 ≤ max_retries)
        × (s'.visited ≡ insert (id n) (get_count (id n) s.visited + 1) s.visited)
  unfolding round
  round-go n s h = elim (Option-cases (ctx_err s.world).0) [
    | inl z ↦ visit-go n (record s { world = (ctx_err s.world).1 }) (rw (z, round) at h)
    | inr (x, z) ↦ absurd (cc (rw (z, round) at h))
  ]
