-- ===== src/Order/Dispatch.antt =====
-- What the order component dispatches to the event managers: the events of core/events and of the
-- public events headers, with the fields that the code sets. A dispatch is the last step of the
-- code that makes it, so it is an entry of a log here; what the receivers do is not modelled.
use libvda5050pp.Common.{ℕ, String, Option}
use libvda5050pp.Message.{ActionStatus, Node, Edge}

-- include/public/vda5050++/misc/order_status.h
pub data OrderStatus : Type 0 where
  order_active order_idle order_idle_paused order_canceling order_pausing order_resuming :
      OrderStatus
  order_paused order_failed order_interrupting : OrderStatus

pub data ControlType : Type 0 where
  pause resume cancel : ControlType

pub data Dispatch : Type 0 where
  action_start : String → Dispatch
  action_pause : String → Dispatch
  action_resume : String → Dispatch
  action_cancel : String → Dispatch
  action_forget : String → Dispatch
  action_status_changed : String → ActionStatus → Option String → Dispatch
  navigation_next_node : Node → Edge → Dispatch
  navigation_upcoming_segment : ℕ → ℕ → Dispatch
  navigation_control : ControlType → Dispatch
  new_last_node_id : String → ℕ → Dispatch
  order_status : OrderStatus → Dispatch
