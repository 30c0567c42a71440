-- ===== src/Tests/InterpreterRuns.antt =====
-- The interpreter at a small order: an action on the edge, two on the node behind it, and a
-- horizon.
use libvda5050pp.Common.{
  ℕ, ◌+◌, ◌≡◌, refl, true, false, List, [], ◌∷◌, ◌++◌, arith, undefined, invalid_argument, ◌⊎◌,
  Error, map,
}
use libvda5050pp.Common.OrdMap.{before_upper, upper_bound, insert_or_assign}
use libvda5050pp.State.Graph.Defs.{from_elements, update_all, update, breaks_invariant}
use libvda5050pp.Message.{Action, none_blocking, hard_blocking, Node, Edge, Order}
use libvda5050pp.Order.Scheduler.State.{navigation_step, action_group}
use libvda5050pp.Interpreter.Events.{Event, clear_actions}
use libvda5050pp.Interpreter.Iter.{from_order, ceil_blocking_type}
use libvda5050pp.Interpreter.Handlers.{
  interpret, next_event, handle, handle_initial, handle_pre_node_action, handle_node_action,
  handle_action, take_action, handle_node_action_queue, queue_group, handle_pre_edge_action,
  handle_edge_action, handle_edge_action_queue, handle_action_yield, handle_transition, step_first,
  step_over, skip_horizon, after_transition, handle_navigation, handle_rest, handle_pre_done,
  all_events, aborted,
}
use libvda5050pp.Interpreter.Expected.{Leg, OrderPath, first_actions, order_events}
use libvda5050pp.Common.{◌≢◌, undefined}
use libvda5050pp.Interpreter.Iter.{EventIter}
use libvda5050pp.Interpreter.Goes.{Goes}
use libvda5050pp.Interpreter.Total.{AtNullGraph}
use libvda5050pp.Interpreter.Terminates.{interpret_ends}
use libvda5050pp.Interpreter.Receive.{
  yields, interpreter_done, request_state_update, handle_valid_order,
}
use libvda5050pp.Interpreter.Deliver.{handle_valid_order_lem}
use libvda5050pp.Interpreter.Account.{announced, grouped, driven, queue_of, actions_along}
use libvda5050pp.Interpreter.EachOnce.{interpret_each_once}
use libvda5050pp.Checks.GraphConsistency.IdSet.{contains, insert_id, first_id, last_id}
use libvda5050pp.Checks.GraphConsistency.Defs.{
  check_order_graph_consistency, check_nodes, check_edges, check_node, check_edge, take_id,
  check_ranges, min_seq, max_seq,
}
use libvda5050pp.Tests.Data.{node_at, edge_at, lift, beep}

abbrev beep_edge : Edge
beep_edge = record (edge_at 1 true) { actions = beep ∷ [] }

abbrev lift_node : Node
lift_node = record (node_at 2 true) { actions = beep ∷ lift ∷ [] }

abbrev pub trip : Order
trip = record {
  order_id = "trip";
  order_update_id = 0;
  nodes = node_at 0 true ∷ lift_node ∷ node_at 4 false ∷ [];
  edges = beep_edge ∷ edge_at 3 false ∷ [];
}

abbrev pub trip_base : List Leg
trip_base = record { via = beep_edge; goal = lift_node } ∷ []

abbrev pub trip_horizon : List Leg
trip_horizon = record { via = edge_at 3 false; goal = node_at 4 false } ∷ []

pub trip_path : OrderPath trip (node_at 0 true) trip_base trip_horizon
trip_path = record {
  its_nodes = refl;
  its_edges = refl;
  starts = refl;
  base_released = ((refl, refl), tt);
  horizon_unreleased = ((refl, refl), tt);
  ascends = (omega arith, (omega arith, (omega arith, (omega arith, tt))));
}

handle_valid_order_lem_example :
    (f : ℕ) × (r : ℕ) × ((i j : ℕ)
      → handle_valid_order (f + i) (r + j) none_blocking trip ≡ (
        map yields (
              order_events none_blocking trip
                (node_at 0 true)
                trip_base
                (trip_base ++ trip_horizon))
            ++ interpreter_done ∷ request_state_update ∷ [],
        all_events,
      ))
handle_valid_order_lem_example =
    handle_valid_order_lem none_blocking trip (node_at 0 true) trip_base trip_horizon trip_path

interpret_ends_example :
    (f : ℕ) × (r : ℕ) × (es : List Event) × (((i j : ℕ)
        → interpret (f + i) (r + j) (from_order none_blocking trip) ≡ (es, all_events))
      ⊎ ((x : Error) × (x ≢ undefined)
          × ((i j : ℕ)
              → interpret (f + i) (r + j) (from_order none_blocking trip) ≡ (es, aborted x)))
      ⊎ ((it : EventIter) × Goes (from_order none_blocking trip) es it
          × AtNullGraph it
          × ((i j : ℕ)
              → interpret (f + i) (r + j) (from_order none_blocking trip)
                ≡ (es, aborted undefined))))
interpret_ends_example = interpret_ends none_blocking trip

abbrev stop_pause : Action
stop_pause = record beep { action_id = "stop"; action_type = "stopPause" }

interpret_each_once_example :
    (f : ℕ) × (r : ℕ) × ((i j : ℕ)
      → let es = (interpret (f + i) (r + j) (from_order none_blocking trip)).0 in
        let met =
          first_actions (node_at 0 true) (trip_base ++ trip_horizon) 0 ++ actions_along trip_base in
        (announced es ≡ met) × (grouped (queue_of es) ≡ met) × (driven (queue_of es) ≡ trip_base))
interpret_each_once_example =
    interpret_each_once none_blocking trip (node_at 0 true) trip_base trip_horizon trip_path

trip_queue :
    queue_of (interpret 9 9 (from_order none_blocking trip)).0
    ≡ action_group (beep ∷ []) none_blocking
      ∷ navigation_step lift_node beep_edge true
      ∷ action_group (beep ∷ []) none_blocking
      ∷ action_group (lift ∷ []) hard_blocking
      ∷ []
unfolding queue_of interpret next_event handle handle_initial handle_pre_node_action
    handle_node_action handle_action take_action handle_node_action_queue queue_group
    handle_pre_edge_action handle_edge_action handle_edge_action_queue handle_action_yield
    handle_transition step_first step_over skip_horizon after_transition handle_navigation
    handle_rest handle_pre_done from_elements update_all update breaks_invariant from_order
    ceil_blocking_type before_upper upper_bound insert_or_assign
trip_queue = refl

-- A group that starts from what memory happens to hold.
hard_from_memory :
    queue_of
      (interpret 9 9 (
        from_order hard_blocking (record trip {
          nodes = record (node_at 0 true) { actions = beep ∷ beep ∷ [] } ∷ [];
          edges = [];
        }))).0
    ≡ action_group (beep ∷ beep ∷ []) hard_blocking ∷ []
unfolding queue_of interpret next_event handle handle_initial handle_pre_node_action
    handle_node_action handle_action take_action handle_node_action_queue queue_group
    handle_pre_edge_action handle_edge_action handle_edge_action_queue handle_action_yield
    handle_transition step_first step_over skip_horizon after_transition handle_navigation
    handle_rest handle_pre_done from_elements update_all update breaks_invariant from_order
    ceil_blocking_type before_upper upper_bound insert_or_assign
hard_from_memory = refl

-- An edge that comes before the first node: there is no graph yet. The check lets the order pass.
starts_with_edge :
    interpret 9 9 (
      from_order none_blocking (record trip {
        nodes = node_at 2 true ∷ node_at 4 true ∷ [];
        edges = edge_at 1 true ∷ edge_at 3 true ∷ [];
      }))
    ≡ (clear_actions ∷ [], aborted undefined)
unfolding queue_of interpret next_event handle handle_initial handle_pre_node_action
    handle_node_action handle_action take_action handle_node_action_queue queue_group
    handle_pre_edge_action handle_edge_action handle_edge_action_queue handle_action_yield
    handle_transition step_first step_over skip_horizon after_transition handle_navigation
    handle_rest handle_pre_done from_elements update_all update breaks_invariant from_order
    ceil_blocking_type before_upper upper_bound insert_or_assign
starts_with_edge = refl

starts_with_edge_passes :
    check_order_graph_consistency (record trip {
      nodes = node_at 2 true ∷ node_at 4 true ∷ [];
      edges = edge_at 1 true ∷ edge_at 3 true ∷ [];
    })
    ≡ []
unfolding check_order_graph_consistency check_nodes check_edges check_node check_edge take_id
    check_ranges min_seq max_seq contains insert_id first_id last_id
starts_with_edge_passes = refl

-- A released edge that leads to a node that is not released, behind a node with an action.
abbrev pub broken : Order
broken = record trip {
  nodes = record (node_at 0 true) { actions = beep ∷ [] } ∷ node_at 2 false ∷ [];
  edges = edge_at 1 true ∷ [];
}

pub broken_aborts : (interpret 9 9 (from_order none_blocking broken)).1 ≡ aborted invalid_argument
unfolding queue_of interpret next_event handle handle_initial handle_pre_node_action
    handle_node_action handle_action take_action handle_node_action_queue queue_group
    handle_pre_edge_action handle_edge_action handle_edge_action_queue handle_action_yield
    handle_transition step_first step_over skip_horizon after_transition handle_navigation
    handle_rest handle_pre_done from_elements update_all update breaks_invariant from_order
    ceil_blocking_type before_upper upper_bound insert_or_assign
broken_aborts = refl

broken_queue :
    queue_of (interpret 9 9 (from_order none_blocking broken)).0
    ≡ action_group (beep ∷ []) none_blocking ∷ []
unfolding queue_of interpret next_event handle handle_initial handle_pre_node_action
    handle_node_action handle_action take_action handle_node_action_queue queue_group
    handle_pre_edge_action handle_edge_action handle_edge_action_queue handle_action_yield
    handle_transition step_first step_over skip_horizon after_transition handle_navigation
    handle_rest handle_pre_done from_elements update_all update breaks_invariant from_order
    ceil_blocking_type before_upper upper_bound insert_or_assign
broken_queue = refl
