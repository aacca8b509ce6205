-- ===== src/Workflow/Parallel.antt =====
-- `ParallelWorkflowExecutor` of multiagent/workflow_executor.go: the groups of nodes that may run
-- beside each other, and the run of one group after the other.
pub mod Degrees
pub mod Keys
pub mod Layers
pub mod Run
pub mod Turns
pub mod Sound
mod Tests
use manglekit.Common.{
  ℕ, ℤ, pos, negsuc, zero, suc, ◌+◌, ltb, String, Bool, true, false, ◌==◌, ◌&&◌, Option, none, some,
  List, [], ◌∷◌, ◌++◌, Map, lookup, insert, remove, length, if◌then◌else◌,
}
use manglekit.Workflow.{Edge, Node, Workflow}

unfoldable pub add_one : ℤ → ℤ
add_one (pos n) = pos (n + 1)
add_one (negsuc zero) = pos 0
add_one (negsuc (suc n)) = negsuc n

unfoldable pub sub_one : ℤ → ℤ
sub_one (pos zero) = negsuc 0
sub_one (pos (suc n)) = pos n
sub_one (negsuc n) = negsuc (n + 1)

abbrev pub is_zero : ℤ → Bool
is_zero (pos zero) = true
is_zero _ = false

-- A missing key reads as 0.
abbrev pub degree : String → Map ℤ → ℤ
degree id deg = elim (lookup id deg) [ none ↦ pos 0 | some d ↦ d ]

-- `edge.Condition == ""`
abbrev pub is_plain : Edge → Bool
is_plain e = e.condition == ""

unfoldable pub node_degrees : List Node → Map ℤ → Map ℤ
node_degrees [] deg = deg
node_degrees (n ∷ ns) deg = node_degrees ns (insert n.id (pos 0) deg)

unfoldable pub edge_degrees : List Edge → Map ℤ → Map ℤ
edge_degrees [] deg = deg
edge_degrees (e ∷ es) deg =
    edge_degrees es (if is_plain e then insert e.to (add_one (degree e.to deg)) deg else deg)

-- The keys whose degree is 0.
unfoldable pub zeros : Map ℤ → List String
zeros [] = []
zeros ((id, d) ∷ deg) = let rest = zeros deg in if is_zero d then id ∷ rest else rest

-- The edges from a node that is taken out.
unfoldable pub release : String → List Edge → Map ℤ → Map ℤ
release id [] deg = deg
release id (e ∷ es) deg =
    release id es
      (if (e.from == id) && is_plain e then insert e.to (sub_one (degree e.to deg)) deg else deg)

unfoldable pub take_out : List String → List Edge → Map ℤ → Map ℤ
take_out [] es deg = deg
take_out (id ∷ ids) es deg = take_out ids es (remove id (release id es deg))

-- The rounds of the loop; none if the fuel does not suffice.
unfoldable pub groups_from : ℕ → List Edge → Map ℤ → Option (List (List String))
groups_from zero es deg = elim (zeros deg) [ [] ↦ some [] | id ∷ ids ↦ none ]
groups_from (suc fuel) es deg =
    let rest = groups_from fuel es (take_out (zeros deg) es deg) in
    elim (zeros deg) [
      | [] ↦ some []
      | id ∷ ids ↦ elim rest [
        | none ↦ none
        | some gs ↦ some (if ltb 1 (length (id ∷ ids)) then (id ∷ ids) ∷ gs else gs)
      ]
    ]

-- Each round but the last takes a key out.
unfoldable pub identify_parallel_groups : Workflow → Option (List (List String))
identify_parallel_groups wf =
    let deg = edge_degrees wf.edges (node_degrees wf.nodes []) in
    groups_from (length deg) wf.edges deg
