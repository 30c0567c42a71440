-- ===== src/Tests/Data.antt =====
-- A small order: three nodes and two edges, of which the last edge and node are not released.
use libvda5050pp.Common.{ℕ, Bool, true, false, none, some, [], ◌∷◌}
use libvda5050pp.Message.{Action, BlockingType, Node, Edge}
use libvda5050pp.State.Graph.Element.{GraphElement, node, edge}
use libvda5050pp.State.Graph.Defs.{Graph}
use libvda5050pp.Order.Scheduler.State.{QueueEvent, navigation_step, action_group}

abbrev pub node_at : ℕ → Bool → Node
node_at seq released = record {
  node_id = "n";
  sequence_id = seq;
  released = released;
  node_description = none;
  node_position = none;
  actions = [];
}

abbrev pub edge_at : ℕ → Bool → Edge
edge_at seq released = record {
  edge_id = "e";
  sequence_id = seq;
  released = released;
  edge_description = none;
  trajectory = none;
  actions = [];
}

abbrev pub n : ℕ → Bool → GraphElement
n seq released = node (node_at seq released)

abbrev pub e : ℕ → Bool → GraphElement
e seq released = edge (edge_at seq released)

-- The AGV stands on node 0; the base ends at node 2.
abbrev pub small : Graph
small = record {
  agv_pos = some 0;
  graph = (0, n 0 true) ∷ (1, e 1 true) ∷ (2, n 2 true) ∷ (3, e 3 false) ∷ (4, n 4 false) ∷ [];
}

-- An order update, stitched at node 2.
abbrev pub more : Graph
more = record { agv_pos = none; graph = (2, n 2 true) ∷ (3, e 3 true) ∷ (4, n 4 true) ∷ [] }

abbrev pub lift : Action
lift = record {
  action_id = "lift";
  action_type = "lift";
  action_description = none;
  blocking_type = BlockingType.hard_blocking;
  action_parameters = none;
}

abbrev pub beep : Action
beep = record {
  action_id = "beep";
  action_type = "beep";
  action_description = none;
  blocking_type = BlockingType.none_blocking;
  action_parameters = none;
}

abbrev pub lift_group : QueueEvent
lift_group = action_group (lift ∷ []) BlockingType.hard_blocking

abbrev pub drive : ℕ → Bool → QueueEvent
drive seq stop = navigation_step (node_at seq true) (edge_at 1 true) stop
