-- ===== src/Interpreter/Actions.antt =====
-- How the handlers of a node's and of an edge's actions go on from one action to the end of them.
use libvda5050pp.Common.{◌≡◌, refl, Bool, List, [], ◌∷◌, ◌++◌}
use libvda5050pp.Message.{Action, BlockingType, none_blocking}
use libvda5050pp.Order.Scheduler.State.{QueueEvent, action_group}
use libvda5050pp.Interpreter.Iter.{
  IterState, handling_node_action, handling_node_action_queue, handling_edge_action,
  handling_edge_action_queue, handling_navigation, handling_transition, EventIter, skip,
}
use libvda5050pp.Interpreter.Handlers.{
  handle, handle_action, handle_edge_action, handle_edge_action_queue, handle_node_action,
  handle_node_action_queue, queue_group,
}
use libvda5050pp.Interpreter.Goes.{Goes, here, skips}

-- An iterator at some point of the actions of a node or an edge.
abbrev pub at_actions :
    EventIter
    → IterState
    → List Action
    → List Action
    → BlockingType
    → Bool
    → List QueueEvent
    → EventIter
at_actions it state actions group ceiling stop queue = record it {
  iter_state = state;
  actions = actions;
  current_action_group = group;
  current_action_group_blocking_type = ceiling;
  stop_at_goal = stop;
  action_events_after_navigation = queue;
}

abbrev pub exit_of : List Action → IterState → IterState → IterState
exit_of [] next back = next
exit_of (a ∷ as') next back = back

abbrev pub flushed : List Action → BlockingType → BlockingType
flushed [] ceiling = ceiling
flushed (a ∷ g) ceiling = none_blocking

abbrev pub flush_onto : List QueueEvent → List Action → BlockingType → List QueueEvent
flush_onto queue [] ceiling = queue
flush_onto queue (a ∷ g) ceiling = queue ++ action_group (a ∷ g) ceiling ∷ []

-- The state that handles actions, the one that queues the group, and the one that follows.
pub record Cycle (handling queueing next : IterState) : Type 0 where
  pub takes :
      (it : EventIter) (group : List Action) (ceiling : BlockingType) (stop : Bool)
      (queue : List QueueEvent) (a : Action) (as' : List Action)
      → handle (at_actions it handling (a ∷ as') group ceiling stop queue)
        ≡ handle_action queueing a as' (at_actions it handling (a ∷ as') group ceiling stop queue)
  pub ends :
      (it : EventIter) (group : List Action) (ceiling : BlockingType) (stop : Bool)
      (queue : List QueueEvent)
      → handle (at_actions it handling [] group ceiling stop queue)
        ≡ skip (at_actions it queueing [] group ceiling stop queue)
  pub queues :
      (it : EventIter) (as' group : List Action) (ceiling : BlockingType) (stop : Bool)
      (queue : List QueueEvent)
      → Goes (at_actions it queueing as' group ceiling stop queue) [] (
          at_actions it
            (exit_of as' next handling)
            as'
            []
            (flushed group ceiling)
            stop
            (flush_onto queue group ceiling))

pub edge-Cycle : Cycle handling_edge_action handling_edge_action_queue handling_navigation
unfolding handle handle_edge_action handle_edge_action_queue queue_group
edge-Cycle = record {
  takes = λ it g c s q a as'. refl;
  ends = λ it g c s q. refl;
  queues = λ it as' g c s q. edge_queues it as' g c s q;
}
  where
    edge_queues :
        (it : EventIter) (as' group : List Action) (ceiling : BlockingType) (stop : Bool)
        (queue : List QueueEvent)
        → Goes (at_actions it handling_edge_action_queue as' group ceiling stop queue) [] (
            at_actions it
              (exit_of as' handling_navigation handling_edge_action)
              as'
              []
              (flushed group ceiling)
              stop
              (flush_onto queue group ceiling))
    edge_queues it [] [] c s q = skips refl here
    edge_queues it (a ∷ as') [] c s q = skips refl here
    edge_queues it [] (b ∷ g) c s q = skips refl (skips refl here)
    edge_queues it (a ∷ as') (b ∷ g) c s q = skips refl (skips refl here)

pub node-Cycle : Cycle handling_node_action handling_node_action_queue handling_transition
unfolding handle handle_node_action handle_node_action_queue queue_group
node-Cycle = record {
  takes = λ it g c s q a as'. refl;
  ends = λ it g c s q. refl;
  queues = λ it as' g c s q. node_queues it as' g c s q;
}
  where
    node_queues :
        (it : EventIter) (as' group : List Action) (ceiling : BlockingType) (stop : Bool)
        (queue : List QueueEvent)
        → Goes (at_actions it handling_node_action_queue as' group ceiling stop queue) [] (
            at_actions it
              (exit_of as' handling_transition handling_node_action)
              as'
              []
              (flushed group ceiling)
              stop
              (flush_onto queue group ceiling))
    node_queues it [] [] c s q = skips refl here
    node_queues it (a ∷ as') [] c s q = skips refl here
    node_queues it [] (b ∷ g) c s q = skips refl here
    node_queues it (a ∷ as') (b ∷ g) c s q = skips refl here
