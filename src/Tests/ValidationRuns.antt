-- ===== src/Tests/ValidationRuns.antt =====
-- The validation of an order update, by an AGV that accepts what it is asked.
use libvda5050pp.Common.{◌≡◌, refl, arith, true, none, some, [], ◌∷◌, ok}
use libvda5050pp.Common.IdMap.{find}
use libvda5050pp.Message.{Action}
use libvda5050pp.State.OrderManager.Defs.{try_get_action}
use libvda5050pp.Checks.Header.{AgvDescription, HeaderError, is_compatible, check_header}
use libvda5050pp.Checks.GraphConsistency.IdSet.{contains, insert_id, first_id, last_id}
use libvda5050pp.Checks.GraphConsistency.Defs.{
  take_id, check_node, check_edge, check_nodes, check_edges, max_seq, min_seq, check_ranges,
  check_order_graph_consistency,
}
use libvda5050pp.Common.OrdMap.{first?}
use libvda5050pp.State.Graph.Defs.{base_bounds, last_base?}
use libvda5050pp.Checks.Stitching.{check_order_id, check_order_append, base_last, min_sequence_id}
use libvda5050pp.Checks.Actions.Ids.{
  seen_id, unique_action_id, check_actions, check_node_actions, check_edge_actions,
  check_order_action_ids,
}
use libvda5050pp.Validation.Handler.{
  ValidateOrderEvent, Agv, in_header, unknown_action_type, action_validates, query_accept_zone_set,
  zone_errors, result_of, gather, run_checks, handle_validate_order,
}
use libvda5050pp.Common.{map}
use libvda5050pp.Checks.Actions.Unique.{order_actions}
use libvda5050pp.Validation.Valid.{IsAcceptable, handle_validate_order-IsAcceptable}
use libvda5050pp.Tests.Data.{node_at, edge_at, beep}
use libvda5050pp.Tests.ManagerRuns.{manager}

abbrev robot : AgvDescription
robot = record { manufacturer = "maker"; serial_number = "7" }

abbrev received : ValidateOrderEvent
received = record {
  header = record { header_id = 4; version = "2.0.0"; manufacturer = "maker"; serial_number = "7" };
  order = record {
    order_id = "order";
    order_update_id = 4;
    nodes = node_at 2 true ∷ record (node_at 4 true) { actions = beep ∷ [] } ∷ [];
    edges = edge_at 3 true ∷ [];
  };
  zone_set_id = some "hall";
}

abbrev willing : Agv Action
willing = record { accept_zone_set = λ z. some (ok []); validate = λ v. some (ok []) }

-- No handler of this AGV sets a result for an action.
abbrev silent : Agv Action
silent = record willing { validate = λ v. none }

received_passes :
    (handle_validate_order willing manager robot true (some received)).1 ≡ ok (some [])
unfolding handle_validate_order run_checks gather result_of zone_errors query_accept_zone_set
    action_validates check_header is_compatible check_order_id check_order_append base_last
    min_sequence_id base_bounds last_base? first? check_order_graph_consistency check_nodes
    check_edges check_node check_edge take_id check_ranges max_seq min_seq contains insert_id
    first_id last_id check_order_action_ids check_node_actions check_edge_actions check_actions
    unique_action_id seen_id try_get_action find
received_passes = refl

handle_validate_order-IsAcceptable_example :
    IsAcceptable willing manager robot received
    × (map (λ v. v.action) (handle_validate_order willing manager robot true (some received)).0
        ≡ order_actions received.order)
handle_validate_order-IsAcceptable_example =
    handle_validate_order-IsAcceptable willing manager robot true received (ground arith)
      (ground arith) received_passes

-- A serial number of another AGV, and an action that no handler knows.
received_fails :
    (handle_validate_order silent manager
      (record robot { serial_number = "8" })
      true
      (some received)).1
    ≡ ok (some (in_header (HeaderError.invalid_serial_number "7") ∷ unknown_action_type beep ∷ []))
unfolding handle_validate_order run_checks gather result_of zone_errors query_accept_zone_set
    action_validates check_header is_compatible check_order_id check_order_append base_last
    min_sequence_id base_bounds last_base? first? check_order_graph_consistency check_nodes
    check_edges check_node check_edge take_id check_ranges max_seq min_seq contains insert_id
    first_id last_id check_order_action_ids check_node_actions check_edge_actions check_actions
    unique_action_id seen_id try_get_action find
received_fails = refl
