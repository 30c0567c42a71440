-- ===== src/Interpreter/Iter.antt =====
-- `EventIter` of core/interpreter/functional.h. An iterator is the list of what it has yet to
-- visit, its end the empty list.
use libvda5050pp.Common.{ℕ, String, Bool, false, Option, none, List, [], Error}
use libvda5050pp.Message.{
  Action, Node, Edge, Order, BlockingType, none_blocking, soft_blocking, hard_blocking,
}
use libvda5050pp.State.Graph.Defs.{Graph}
use libvda5050pp.Order.Scheduler.State.{QueueEvent}
use libvda5050pp.Interpreter.Events.{Event}

pub data IterState : Type 0 where
  handling_initial handling_pre_node_action handling_node_action : IterState
  handling_node_action_queue handling_pre_edge_action handling_edge_action : IterState
  handling_edge_action_queue handling_action_yield handling_navigation : IterState
  handling_transition pre_done done : IterState

pub record EventIter : Type 0 where
  pub iter_state : IterState
  pub nodes : List Node
  pub edges : List Edge
  pub actions : List Action
  pub order_id : String
  pub order_update_id : ℕ  -- uint32_t
  pub collected_graph : Option Graph
  pub current_goal_node : Option Node
  pub current_via_edge : Option Edge
  pub stop_at_goal : Bool
  pub current_action_group : List Action
  pub current_action_group_blocking_type : BlockingType
  pub action_events_after_navigation : List QueueEvent

-- The blocking type of the first group is never initialised: it is an argument here.
unfoldable pub from_order : BlockingType → Order → EventIter
from_order uninitialised order = record {
  iter_state = handling_initial;
  nodes = order.nodes;
  edges = order.edges;
  actions = [];
  order_id = order.order_id;
  order_update_id = order.order_update_id;
  collected_graph = none;
  current_goal_node = none;
  current_via_edge = none;
  stop_at_goal = false;
  current_action_group = [];
  current_action_group_blocking_type = uninitialised;
  action_events_after_navigation = [];
}

-- `ceilCurrentActionGroupBlockingType`
unfoldable pub ceil_blocking_type : BlockingType → BlockingType → BlockingType
ceil_blocking_type hard_blocking additional = hard_blocking
ceil_blocking_type soft_blocking hard_blocking = hard_blocking
ceil_blocking_type soft_blocking soft_blocking = soft_blocking
ceil_blocking_type soft_blocking none_blocking = soft_blocking
ceil_blocking_type none_blocking additional = additional

-- What a handler does: it goes on with `nextEvent`, returns an event, returns null, or throws.
pub data Step : Type 0 where
  skip : EventIter → Step
  yield_event : Event → EventIter → Step
  finished : Step
  failed : Error → Step
