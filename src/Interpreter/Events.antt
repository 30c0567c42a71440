-- ===== src/Interpreter/Events.antt =====
-- core/events/interpreter_event.h: the events that the interpreter yields. Those that wait in the
-- queue of the scheduler are its `QueueEvent`s.
use libvda5050pp.Common.{ℕ, String, Option}
use libvda5050pp.Message.{Action}
use libvda5050pp.State.Graph.Defs.{Graph}
use libvda5050pp.Order.Scheduler.State.{QueueEvent}

pub data Event : Type 0 where
  clear_actions : Event
  new_action : Action → Event
  queued : QueueEvent → Event
  graph_extension : Option Graph → ℕ → Event
  graph_replacement : Option Graph → String → Event
