-- ===== src/Workflow/Parallel/Tests.antt =====
-- A diamond, whose two nodes in the middle may run beside each other.
use manglekit.Common.{
  pos, negsuc, ◌≡◌, refl, String, true, none, some, List, [], ◌∷◌, insert, remove, lookup, length,
}
use manglekit.Workflow.{external, str, other, ok, Node, Edge, Workflow, Env, completed}
use manglekit.Workflow.Graph.{find_node_by_id, find_node}
use manglekit.Workflow.Attempts.{execute_node, attempts}
use manglekit.Workflow.Execute.{Run}
use manglekit.Workflow.Parallel.{
  node_degrees, edge_degrees, add_one, sub_one, zeros, release, take_out, groups_from,
  identify_parallel_groups,
}
use manglekit.Workflow.Parallel.Layers.{IsLayered, identify_parallel_groups_total}
use manglekit.Workflow.Parallel.Run.{
  Host, texts_of, outputs_of, errors_of, merge_outputs, send, send_all, take_at, prepend, collect,
  ran, blocked, panicked, execute_parallel_group, run_groups, execute_parallel,
}

-- The world lists the nodes that ran.
abbrev env : Env
env = record {
  World = List String;
  ctx_err = λ w. (none, w);
  execute = λ n v a w. (ok (str "done"), n.id ∷ w);
  wait = λ k w. (none, w);
  find_agents = λ role w. (ok (record { id = "agent-1"; role = role } ∷ []), w);
  query = λ facts q w. (ok 1, w);
  evaluate_condition = λ c facts w. (ok true, w);
  print = λ n. "n";
}

abbrev host : Host (List String)
host = record {
  boxed_texts = λ ts. other (length ts);
  boxed_map = λ m. other 0;
  join = λ es. external (length es);
  enters = λ waiting holding w. true;
  pick = λ ids w. 0;
}

abbrev node : String → Node
node id = record { id = id; type = "task"; agent = "worker"; config = [] }

abbrev edge : String → String → Edge
edge from to = record { from = from; to = to; condition = "" }

abbrev diamond : Workflow
diamond = record {
  id = "wf";
  name = "";
  version = "";
  nodes = node "a" ∷ node "b" ∷ node "c" ∷ node "d" ∷ [];
  edges = edge "a" "b" ∷ edge "a" "c" ∷ edge "b" "d" ∷ edge "c" "d" ∷ [];
}

middle : identify_parallel_groups diamond ≡ some (("b" ∷ "c" ∷ []) ∷ [])
unfolding identify_parallel_groups groups_from node_degrees edge_degrees add_one sub_one zeros
    release take_out insert remove lookup
middle = refl

-- The first and the last node never run, though the execution is completed.
ends_skipped :
    (run : Run (List String)) × (execute_parallel env host (pos 3) 13 diamond (str "in") []
      ≡ some (ran run))
    × (run.0.status ≡ completed)
    × (run.2 ≡ "b" ∷ "c" ∷ [])
unfolding identify_parallel_groups groups_from node_degrees edge_degrees add_one sub_one zeros
    release take_out insert remove lookup execute_parallel run_groups execute_parallel_group
    send_all send find_node_by_id find_node execute_node attempts outputs_of errors_of merge_outputs
    texts_of take_at prepend collect
ends_skipped = (_, refl, refl, refl)

-- With no place in the semaphore the group waits for ever, and a negative number of places panics.
no_place :
    execute_parallel_group env host (pos 0) diamond ("b" ∷ "c" ∷ []) (str "in") [] ≡ some blocked
unfolding execute_parallel_group send_all take_at collect
no_place = refl

negative :
    execute_parallel_group env host (negsuc 0) diamond ("b" ∷ "c" ∷ []) (str "in") []
    ≡ some panicked
unfolding execute_parallel_group
negative = refl

identify_parallel_groups_total_example :
    (gs : List (List String)) × (identify_parallel_groups diamond ≡ some gs)
    × IsLayered diamond.edges gs
identify_parallel_groups_total_example = identify_parallel_groups_total diamond
