-- ===== src/Workflow/Loop/Termination.antt =====
-- The walk ends: each round that goes on spends one of the visits that the nodes have left.
use manglekit.Common.{
  ℕ, zero, suc, ◌+◌, ◌-◌, ◌*◌, ◌≤◌, ◌<◌, ◌≡◌, inl, inr, String, true, some, List, [], ◌∷◌, arith,
  Map, lookup, insert, lookup-insert, ◌==◌, eq_iff, if◌then◌else◌, contains, length,
}
use manglekit.Workflow.Loop.{Ops, LoopState, Round-cases, get_count, round, loop}
use manglekit.Workflow.Loop.Rounds.{Leads, round-go}

pub get_count-insert :
    (k j : String) (c : ℕ) (m : Map ℕ)
    → get_count j (insert k c m) ≡ (if k == j then c else get_count j m)
get_count-insert k j c m = ground (arith, lookup-insert k j c m)

-- The visits that are left to the nodes with these ids.
abbrev pub budget : ℕ → List String → Map ℕ → ℕ
budget max [] m = 0
budget max (k ∷ ks) m = (max - get_count k m) + budget max ks m

budget-visit_le :
    (max : ℕ) (ks : List String) (k : String) (m : Map ℕ)
    → budget max ks (insert k (get_count k m + 1) m) ≤ budget max ks m
budget-visit_le max [] k m = omega arith
budget-visit_le max (j ∷ ks) k m =
    ground
      (arith, get_count-insert k j (get_count k m + 1) m, eq_iff k j, budget-visit_le max ks k m)

pub budget-visit_lt :
    (max : ℕ) (ks : List String) (k : String) (m : Map ℕ)
    → contains ks k ≡ true
    → get_count k m + 1 ≤ max
    → budget max ks (insert k (get_count k m + 1) m) < budget max ks m
budget-visit_lt max [] k m h le = cc
budget-visit_lt max (j ∷ ks) k m h le = ground (
  arith,
  get_count-insert k j (get_count k m + 1) m,
  eq_iff k j,
  eq_iff j k,
  budget-visit_le max ks k m,
  budget-visit_lt max ks k m,
)

pub budget-empty : (max : ℕ) (ks : List String) → budget max ks [] ≡ length ks * max
unfolding lookup
budget-empty max [] = omega arith
budget-empty max (k ∷ ks) = omega (arith, budget-empty max ks)

module _ {World N : Type 0} (ops : Ops World N) (max_retries : ℕ) where
  open ops use {id}

  -- With more fuel than visits left, the walk comes to its end, if every edge that a round may
  -- follow leads to a node with one of the ids.
  pub loop_total :
      (ids : List String)
      (closed : (n n' : N) → Leads ops max_retries n n' → contains ids (id n') ≡ true) (fuel : ℕ)
      (n : N) (s : LoopState World)
      → contains ids (id n) ≡ true
      → budget max_retries ids s.visited < fuel
      → (s' : LoopState World) × (loop ops max_retries fuel n s ≡ some s')
  unfolding loop
  loop_total ids closed zero n s h lt = absurd (omega arith)
  loop_total ids closed (suc fuel) n s h lt = elim (Round-cases (round ops max_retries n s)) [
    | inl (s', z) ↦ (s', rw (z, loop))
    | inr (n', s', z) ↦
        let (leads, fits, same) = round-go ops max_retries n s z in
        rw (z, loop)
          (loop_total ids closed fuel n' s' (closed n n' leads)
            (rw same (omega (arith, budget-visit_lt max_retries ids (id n) s.visited h fits))))
  ]

pub budget-le : (max : ℕ) (ks : List String) (m : Map ℕ) → budget max ks m ≤ length ks * max
budget-le max [] m = omega arith
budget-le max (k ∷ ks) m = omega (arith, budget-le max ks m)
