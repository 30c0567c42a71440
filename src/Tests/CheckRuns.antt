-- ===== src/Tests/CheckRuns.antt =====
-- The consistency check at small orders.
use libvda5050pp.Common.{◌≤◌, All, ◌≡◌, refl, true, false, List, [], ◌∷◌, arith}
use libvda5050pp.Message.{Node, Order}
use libvda5050pp.Checks.GraphConsistency.IdSet.{contains, insert_id, first_id, last_id}
use libvda5050pp.Checks.GraphConsistency.Defs.{
  CheckError, take_id, check_node, check_edge, check_nodes, check_edges, max_seq, min_seq,
  check_ranges, check_order_graph_consistency,
}
use libvda5050pp.Checks.GraphConsistency.Sound.{
  IsConsistent, check_order_graph_consistency-IsConsistent,
}
use libvda5050pp.Checks.GraphConsistency.Complete.{check_order_graph_consistency_complete}
use text.Mathlib.Text.{◌==◌ as str_eq}
use libvda5050pp.Common.OrdMap.{first?}
use libvda5050pp.State.Graph.Defs.{base_bounds, last_base?}
use libvda5050pp.Checks.Stitching.{
  check_order_append, base_last, min_sequence_id, check_order_append_lem,
}
use libvda5050pp.Tests.ManagerRuns.{manager}
use libvda5050pp.Tests.Data.{small, node_at, edge_at}

-- A released node and edge, and an announced node.
abbrev order_of : List Node → Order
order_of nodes = record {
  order_id = "order";
  order_update_id = 0;
  nodes = nodes;
  edges = edge_at 1 true ∷ [];
}

abbrev three : Order
three = order_of (node_at 0 true ∷ node_at 2 false ∷ [])

check_order_graph_consistency-IsConsistent_example : IsConsistent three
unfolding check_order_graph_consistency check_nodes check_edges check_node check_edge take_id
    check_ranges max_seq min_seq contains insert_id first_id last_id
check_order_graph_consistency-IsConsistent_example =
    check_order_graph_consistency-IsConsistent three (ground arith) (ground arith) refl

-- Node 2 is missing.
three_gap :
    check_order_graph_consistency (order_of (node_at 0 true ∷ node_at 4 true ∷ []))
    ≡ CheckError.skipped ∷ []
unfolding check_order_graph_consistency check_nodes check_edges check_node check_edge take_id
    check_ranges max_seq min_seq contains insert_id first_id last_id
three_gap = refl

-- The edge is released, but not the node before it.
three_mixed :
    check_order_graph_consistency (order_of (node_at 0 false ∷ node_at 2 true ∷ []))
    ≡ CheckError.horizon_below_base ∷ []
unfolding check_order_graph_consistency check_nodes check_edges check_node check_edge take_id
    check_ranges max_seq min_seq contains insert_id first_id last_id
three_mixed = refl

three-IsConsistent : IsConsistent three
unfolding check_order_graph_consistency check_nodes check_edges check_node check_edge take_id
    check_ranges max_seq min_seq contains insert_id first_id last_id
three-IsConsistent =
    check_order_graph_consistency-IsConsistent three (ground arith) (ground arith) refl

check_order_graph_consistency_complete_example : check_order_graph_consistency three ≡ []
check_order_graph_consistency_complete_example =
    check_order_graph_consistency_complete three (ground arith) (ground arith) three-IsConsistent

-- The rest of the small order, to which the manager's base leads.
abbrev update : Order
update = record (order_of (node_at 2 true ∷ node_at 4 true ∷ [])) { order_update_id = 4 }

check_order_append_lem_example :
    (str_eq "order" "order" ≡ true)
    × (min_sequence_id 2 (node_at 4 true ∷ []) ≡ 2)
    × All (λ (k : Node). 2 ≤ k.sequence_id) (node_at 2 true ∷ node_at 4 true ∷ [])
unfolding base_bounds last_base? first? check_order_append base_last min_sequence_id
check_order_append_lem_example =
    check_order_append_lem manager update small (node_at 2 true) (node_at 4 true ∷ []) 0 2 refl refl
      refl refl refl refl
