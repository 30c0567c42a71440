-- ===== src/Interpreter/Handlers/Actions.antt =====
-- The handlers of a node's and of an edge's actions, and of the queue behind a navigation step.
use libvda5050pp.Common.{true, not, List, [], ◌∷◌, ◌++◌, invalid_argument, is_empty, if◌then◌else◌}
use libvda5050pp.Message.{Action, none_blocking, soft_blocking, hard_blocking}
use libvda5050pp.Order.Scheduler.State.{action_group}
use libvda5050pp.Interpreter.Events.{new_action, queued}
use libvda5050pp.Interpreter.Iter.{
  IterState, handling_pre_node_action, handling_node_action, handling_node_action_queue,
  handling_edge_action, handling_edge_action_queue, handling_navigation, handling_transition,
  EventIter, ceil_blocking_type, Step, skip, yield_event, failed,
}

unfoldable pub handle_pre_edge_action : EventIter → Step
handle_pre_edge_action it = elim it.edges [
  | [] ↦ failed invalid_argument
  | e ∷ es ↦
      if e.released
      then skip (record it { actions = e.actions; iter_state = handling_edge_action })
      else skip (record it { iter_state = handling_navigation })
]

-- The action joins the current group, and is announced.
unfoldable pub take_action : Action → List Action → EventIter → Step
take_action a rest it = yield_event (new_action a) (record it {
  current_action_group_blocking_type =
      ceil_blocking_type it.current_action_group_blocking_type a.blocking_type;
  current_action_group = it.current_action_group ++ a ∷ [];
  actions = rest;
})

-- The switch over the blocking type; `queue` is the state that yields the group.
unfoldable pub handle_action : IterState → Action → List Action → EventIter → Step
unfolding take_action
handle_action queue a rest it = elim a.blocking_type [
  | hard_blocking ↦
      if not (is_empty it.current_action_group)
      then skip (record it { iter_state = queue })
      else take_action a rest (record it { iter_state = queue; stop_at_goal = true })
  | soft_blocking ↦ take_action a rest (record it { stop_at_goal = true })
  | none_blocking ↦ take_action a rest it
]

unfoldable pub handle_edge_action : EventIter → Step
unfolding handle_action
handle_edge_action it = elim it.actions [
  | [] ↦ skip (record it { iter_state = handling_edge_action_queue })
  | a ∷ rest ↦ handle_action handling_edge_action_queue a rest it
]

-- The current group is queued behind the navigation, and reset.
unfoldable pub queue_group : EventIter → EventIter
queue_group it = record it {
  action_events_after_navigation =
      it.action_events_after_navigation
      ++ action_group it.current_action_group it.current_action_group_blocking_type ∷ [];
  current_action_group = [];
  current_action_group_blocking_type = none_blocking;
}

unfoldable pub handle_edge_action_queue : EventIter → Step
unfolding queue_group
handle_edge_action_queue it =
    if not (is_empty it.current_action_group)
    then skip (queue_group it)
    else (if not (is_empty it.actions)
        then skip (record it { iter_state = handling_edge_action })
        else skip (record it { iter_state = handling_navigation }))

unfoldable pub handle_pre_node_action : EventIter → Step
handle_pre_node_action it = elim it.nodes [
  | [] ↦ failed invalid_argument
  | n ∷ ns ↦
      if n.released
      then skip (record it { actions = n.actions; iter_state = handling_node_action })
      else skip (record it { iter_state = handling_transition })
]

unfoldable pub handle_node_action : EventIter → Step
unfolding handle_action
handle_node_action it = elim it.actions [
  | [] ↦ skip (record it { iter_state = handling_node_action_queue })
  | a ∷ rest ↦ handle_action handling_node_action_queue a rest it
]

unfoldable pub handle_node_action_queue : EventIter → Step
unfolding queue_group
handle_node_action_queue it =
    let it' = record it {
      iter_state = if not (is_empty it.actions) then handling_node_action else handling_transition;
    } in
    if not (is_empty it.current_action_group) then skip (queue_group it') else skip it'

unfoldable pub handle_action_yield : EventIter → Step
handle_action_yield it = elim it.action_events_after_navigation [
  | [] ↦ skip (record it { iter_state = handling_pre_node_action })
  | e ∷ q ↦ yield_event (queued e) (record it { action_events_after_navigation = q })
]
