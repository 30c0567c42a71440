-- ===== src/Interpreter/Expected.antt =====
-- What an order is to be translated to, told leg by leg.
use libvda5050pp.Common.{
  ℕ, ◌≤◌, ◌≡◌, String, Bool, true, false, ◌||◌, Option, none, some, List, [], ◌∷◌, ◌++◌, map,
  is_empty, ltb, ◌==◌, if◌then◌else◌, All,
}
use libvda5050pp.Message.{Action, Node, Edge, Order, BlockingType}
use libvda5050pp.State.Graph.Element.{GraphElement, node, edge}
use libvda5050pp.State.Graph.Defs.{Graph}
use libvda5050pp.Order.Scheduler.State.{QueueEvent, navigation_step}
use libvda5050pp.Interpreter.Events.{
  Event, clear_actions, new_action, queued, graph_extension, graph_replacement,
}
use libvda5050pp.Interpreter.PathGraph.{Ascends, entries}
use libvda5050pp.Interpreter.Groups.{groups, stops, ceiling_after}

-- An edge with the node that it leads to.
pub record Leg : Type 0 where
  pub via : Edge
  pub goal : Node

abbrev pub Released : Leg → Type 0
Released leg = (leg.via.released ≡ true) × (leg.goal.released ≡ true)

abbrev pub Unreleased : Leg → Type 0
Unreleased leg = (leg.via.released ≡ false) × (leg.goal.released ≡ false)

-- The edge does not come after its node.
abbrev pub Leads : Leg → Type 0
Leads leg = leg.via.sequence_id ≤ leg.goal.sequence_id

abbrev pub edges_of : List Leg → List Edge
edges_of [] = []
edges_of (l ∷ ls) = l.via ∷ edges_of ls

abbrev pub nodes_of : List Leg → List Node
nodes_of [] = []
nodes_of (l ∷ ls) = l.goal ∷ nodes_of ls

abbrev pub elements_of : List Leg → List GraphElement
elements_of [] = []
elements_of (l ∷ ls) = edge l.via ∷ node l.goal ∷ elements_of ls

-- The navigation step to a goal that is pending.
abbrev pub navigation : Option Leg → Bool → List Event
navigation none stop = []
navigation (some l) stop = queued (navigation_step l.goal l.via stop) ∷ []

-- The released legs. An edge's actions are announced before the AGV is sent to the edge's start,
-- which is the pending goal; they are queued behind that.
unfoldable pub leg_events :
    List Leg → Option Leg → Bool → List QueueEvent → BlockingType → List Event
leg_events [] pending stop queue ceiling = navigation pending stop ++ map queued queue
leg_events (l ∷ ls) pending stop queue ceiling =
    let after_edge = ceiling_after l.via.actions [] ceiling in
    map new_action l.via.actions
    ++ (navigation pending (stop || stops l.via.actions)
        ++ (map queued (queue ++ groups l.via.actions [] ceiling)
            ++ (map new_action l.goal.actions
                ++ leg_events ls (some l) (stops l.goal.actions)
                    (groups l.goal.actions [] after_edge)
                    (ceiling_after l.goal.actions [] after_edge))))

-- An extension that leads on starts with a node that is known already.
abbrev pub first_actions : Node → List Leg → ℕ → List Action
first_actions n legs update_id = if is_empty legs || update_id == 0 then n.actions else []

abbrev pub graph_event : Graph → String → ℕ → Event
graph_event g order_id update_id =
    if ltb 0 update_id
    then graph_extension (some g) update_id
    else graph_replacement (some g) order_id

abbrev pub opening : ℕ → List Event
opening update_id = if update_id == 0 then clear_actions ∷ [] else []

abbrev pub path_graph : Node → List Leg → Graph
path_graph n legs = record { agv_pos = none; graph = entries (node n ∷ elements_of legs) }

-- `base` are the released legs of the order, `all` all of them.
unfoldable pub order_events : BlockingType → Order → Node → List Leg → List Leg → List Event
order_events uninitialised order n base all =
    let as' = first_actions n all order.order_update_id in
    opening order.order_update_id
    ++ (map new_action as'
        ++ (leg_events base none (stops as') (groups as' [] uninitialised)
              (ceiling_after as' [] uninitialised)
            ++ graph_event (path_graph n all) order.order_id order.order_update_id ∷ []))

-- An order told leg by leg: the first node and the base are released, the horizon is not, and the
-- sequence ids grow along the path.
pub record OrderPath (order : Order) (n : Node) (base horizon : List Leg) : Type 0 where
  pub its_nodes : order.nodes ≡ n ∷ nodes_of (base ++ horizon)
  pub its_edges : order.edges ≡ edges_of (base ++ horizon)
  pub starts : n.released ≡ true
  pub base_released : All Released base
  pub horizon_unreleased : All Unreleased horizon
  pub ascends : Ascends n.sequence_id (elements_of (base ++ horizon))
