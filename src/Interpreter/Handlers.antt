-- ===== src/Interpreter/Handlers.antt =====
-- The handlers of core/interpreter/functional.cpp, one for each state of the iterator, `nextEvent`,
-- and the loop of `handleValidOrder`.
mod Actions
mod Steps
unfoldable pub use Actions.{
  handle_pre_edge_action, take_action, handle_action, handle_edge_action, queue_group,
  handle_edge_action_queue, handle_pre_node_action, handle_node_action, handle_node_action_queue,
  handle_action_yield,
}
unfoldable pub use Steps.{
  after_transition, before_edge, first_node_first, handle_initial, handle_navigation,
  handle_pre_done, handle_rest, handle_transition, skip_horizon, step_first, step_over,
}
use libvda5050pp.Common.{
  ℕ, zero, suc, Bool, true, false, not, ◌&&◌, ◌||◌, none, some, List, [], ◌∷◌, ◌++◌, Error,
  invalid_argument, undefined, Result, ok, err, ◌>>=◌, is_empty, ltb, ◌==◌, if◌then◌else◌,
}
use libvda5050pp.Message.{Action, Node, Edge, none_blocking, soft_blocking, hard_blocking}
use libvda5050pp.State.Graph.Element.{node, edge}
use libvda5050pp.State.Graph.Defs.{Graph, update, from_elements}
use libvda5050pp.Order.Scheduler.State.{navigation_step, action_group}
use libvda5050pp.Interpreter.Events.{
  Event, clear_actions, new_action, queued, graph_extension, graph_replacement,
}
use libvda5050pp.Interpreter.Iter.{
  IterState, handling_initial, handling_pre_node_action, handling_node_action,
  handling_node_action_queue, handling_pre_edge_action, handling_edge_action,
  handling_edge_action_queue, handling_action_yield, handling_navigation, handling_transition,
  pre_done, done, EventIter, ceil_blocking_type, Step, skip, yield_event, finished, failed,
}

-- The switch of `nextEvent`.
unfoldable pub handle : EventIter → Step
handle it = elim it.iter_state [
  | handling_initial ↦ handle_initial it
  | handling_pre_node_action ↦ handle_pre_node_action it
  | handling_node_action ↦ handle_node_action it
  | handling_node_action_queue ↦ handle_node_action_queue it
  | handling_pre_edge_action ↦ handle_pre_edge_action it
  | handling_edge_action ↦ handle_edge_action it
  | handling_edge_action_queue ↦ handle_edge_action_queue it
  | handling_action_yield ↦ handle_action_yield it
  | handling_navigation ↦ handle_navigation it
  | handling_transition ↦ handle_transition it
  | pre_done ↦ handle_pre_done it
  | done ↦ finished
]

-- The result of `nextEvent`; `exhausted` stands for a recursion that outlasts its fuel.
pub data Next : Type 0 where
  event : Event → EventIter → Next
  null : Next
  thrown : Error → Next
  exhausted : Next

-- `nextEvent`: a handler that yields nothing ends with a call of it.
unfoldable pub next_event : ℕ → EventIter → Next
next_event zero it = exhausted
next_event (suc fuel) it = elim (handle it) [
  | skip it' ↦ next_event fuel it'
  | yield_event e it' ↦ event e it'
  | finished ↦ null
  | failed x ↦ thrown x
]

pub data Interpretation : Type 0 where
  all_events : Interpretation
  aborted : Error → Interpretation
  unfinished : Interpretation

-- The loop of `handleValidOrder`: the events that are dispatched, and how it ends.
unfoldable pub interpret : ℕ → ℕ → EventIter → List Event × Interpretation
interpret fuel zero it = ([], unfinished)
interpret fuel (suc rounds) it = elim (next_event fuel it) [
  | event e it' ↦ let (rest, end) = interpret fuel rounds it' in (e ∷ rest, end)
  | null ↦ ([], all_events)
  | thrown x ↦ ([], aborted x)
  | exhausted ↦ ([], unfinished)
]
