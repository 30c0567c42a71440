-- ===== src/Interpreter/Legs.antt =====
-- How the handlers go from leg to leg.
use libvda5050pp.Common.{
  ◌≡◌, refl, arith, Bool, true, false, Option, none, some, List, [], ◌∷◌, map,
}
use libvda5050pp.Message.{Node, Edge, BlockingType}
use libvda5050pp.State.Graph.Defs.{Graph}
use libvda5050pp.Order.Scheduler.State.{QueueEvent}
use libvda5050pp.Interpreter.Events.{queued}
use libvda5050pp.Interpreter.Iter.{
  IterState, handling_pre_node_action, handling_node_action, handling_pre_edge_action,
  handling_edge_action, handling_action_yield, handling_navigation, handling_transition, pre_done,
  EventIter, skip,
}
use libvda5050pp.Interpreter.Handlers.{
  handle, handle_pre_edge_action, handle_pre_node_action, handle_navigation, handle_action_yield,
  after_transition,
}
use libvda5050pp.Interpreter.Goes.{Goes, here, skips, yields}
use libvda5050pp.Interpreter.Actions.{at_actions}
use libvda5050pp.Interpreter.Expected.{Leg, edges_of, nodes_of, navigation}

abbrev goal_of : Option Leg → Option Node
goal_of none = none
goal_of (some l) = some l.goal

abbrev via_of : Option Leg → Option Edge
via_of none = none
via_of (some l) = some l.via

abbrev pub leg_state : List Leg → IterState
leg_state [] = pre_done
leg_state (l ∷ ls) = handling_pre_edge_action

-- The iterator before some legs, with a goal pending.
abbrev pub at_legs : EventIter → List Leg → Option Graph → Option Leg → EventIter
at_legs it legs g pending = record it {
  edges = edges_of legs;
  nodes = nodes_of legs;
  collected_graph = g;
  current_goal_node = goal_of pending;
  current_via_edge = via_of pending;
}

pub navigation_go :
    (it : EventIter) (legs : List Leg) (g : Option Graph) (p : Option Leg) (c : BlockingType)
    (s : Bool) (q : List QueueEvent)
    → Goes
        (at_actions (at_legs it legs g p) handling_navigation [] [] c s q)
        (navigation p s)
        (at_actions (at_legs it legs g none) handling_action_yield [] [] c false q)
unfolding handle handle_navigation
navigation_go it legs g none c s q = skips refl here
navigation_go it legs g (some l) c s q = yields refl here

pub queue_go :
    (it : EventIter) (c : BlockingType) (s : Bool) (q : List QueueEvent)
    → Goes
        (at_actions it handling_action_yield [] [] c s q)
        (map queued q)
        (at_actions it handling_pre_node_action [] [] c s [])
unfolding handle handle_action_yield
queue_go it c s [] = skips refl here
queue_go it c s (e ∷ q) = yields refl (queue_go it c s q)

pub edge_go :
    (it : EventIter) (l : Leg) (ls : List Leg) (g : Option Graph) (p : Option Leg)
    (c : BlockingType) (s : Bool) (q : List QueueEvent)
    → l.via.released ≡ true
    → handle (at_actions (at_legs it (l ∷ ls) g p) handling_pre_edge_action [] [] c s q)
      ≡ skip (at_actions (at_legs it (l ∷ ls) g p) handling_edge_action l.via.actions [] c s q)
unfolding handle handle_pre_edge_action
edge_go it l ls g p c s q r = ground arith

pub horizon_edge :
    (it : EventIter) (l : Leg) (ls : List Leg) (g : Option Graph) (p : Option Leg)
    (c : BlockingType) (s : Bool) (q : List QueueEvent)
    → l.via.released ≡ false
    → handle (at_actions (at_legs it (l ∷ ls) g p) handling_pre_edge_action [] [] c s q)
      ≡ skip (at_actions (at_legs it (l ∷ ls) g p) handling_navigation [] [] c s q)
unfolding handle handle_pre_edge_action
horizon_edge it l ls g p c s q r = ground arith

pub node_go :
    (it : EventIter) (l : Leg) (ls : List Leg) (g : Option Graph) (p : Option Leg)
    (c : BlockingType) (s : Bool) (q : List QueueEvent)
    → l.goal.released ≡ true
    → handle (at_actions (at_legs it (l ∷ ls) g p) handling_pre_node_action [] [] c s q)
      ≡ skip (at_actions (at_legs it (l ∷ ls) g p) handling_node_action l.goal.actions [] c s q)
unfolding handle handle_pre_node_action
node_go it l ls g p c s q r = ground arith

pub horizon_node :
    (it : EventIter) (l : Leg) (ls : List Leg) (g : Option Graph) (p : Option Leg)
    (c : BlockingType) (s : Bool) (q : List QueueEvent)
    → l.goal.released ≡ false
    → handle (at_actions (at_legs it (l ∷ ls) g p) handling_pre_node_action [] [] c s q)
      ≡ skip (at_actions (at_legs it (l ∷ ls) g p) handling_transition [] [] c s q)
unfolding handle handle_pre_node_action
horizon_node it l ls g p c s q r = ground arith

pub stepped :
    (it : EventIter) (ls : List Leg) (g : Option Graph) (p : Option Leg) (c : BlockingType)
    (s : Bool) (q : List QueueEvent)
    → after_transition (at_actions (at_legs it ls g p) handling_transition [] [] c s q)
      ≡ skip (at_actions (at_legs it ls g p) (leg_state ls) [] [] c s q)
unfolding after_transition
stepped it [] g p c s q = refl
stepped it (l ∷ ls) g p c s q = refl
