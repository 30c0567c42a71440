-- ===== src/Interpreter/Receive.antt =====
-- core/interpreter/interpreter_event_handler.cpp: what becomes of a message that the checks let
-- pass. Dispatched events are a log, in order; a null pointer is `none`.
use text.Mathlib.Text.{◌==◌ as str_eq}
use libvda5050pp.Common.{
  ℕ, Bool, true, false, not, ◌||◌, List, [], ◌∷◌, ◌++◌, map, is_empty, if◌then◌else◌,
}
use libvda5050pp.Message.{Action, Order, BlockingType, none_blocking, soft_blocking, hard_blocking}
use libvda5050pp.Order.Scheduler.State.{InstantGroup}
use libvda5050pp.Interpreter.Events.{Event, new_action}
use libvda5050pp.Interpreter.Iter.{from_order}
use libvda5050pp.Interpreter.Handlers.{interpret, Interpretation, all_events, aborted, unfinished}

pub data Dispatched : Type 0 where
  yields : Event → Dispatched
  instant_action_group : InstantGroup → Dispatched
  enables : Action → Dispatched
  interpreter_done : Dispatched
  request_state_update : Dispatched

-- `isControlInstantAction`: one of the declared control actions has the action's type.
unfoldable pub is_control_instant_action : Action → Bool
is_control_instant_action a =
    str_eq a.action_type "cancelOrder"
    || (str_eq a.action_type "startPause"
        || (str_eq a.action_type "stopPause"
            || (str_eq a.action_type "factsheetRequest" || str_eq a.action_type "stateRequest")))

-- The ceiling of the group, raised by an action.
unfoldable pub raise_ceiling : BlockingType → BlockingType → BlockingType
raise_ceiling ceiling hard_blocking = hard_blocking
raise_ceiling hard_blocking soft_blocking = hard_blocking
raise_ceiling soft_blocking soft_blocking = soft_blocking
raise_ceiling none_blocking soft_blocking = soft_blocking
raise_ceiling ceiling none_blocking = ceiling

unfoldable pub add_to_group : Action → InstantGroup → InstantGroup
add_to_group a group = record {
  instant_actions = group.instant_actions ++ a ∷ [];
  blocking_type_ceiling = raise_ceiling group.blocking_type_ceiling a.blocking_type;
}

-- The loop over the instant actions, and the dispatch of the group behind it.
unfoldable pub instant_actions_from : List Action → InstantGroup → List Dispatched
unfolding add_to_group
instant_actions_from [] group =
    if not (is_empty group.instant_actions) then instant_action_group group ∷ [] else []
instant_actions_from (a ∷ as') group = yields (new_action a) ∷ (elim (is_control_instant_action a) [
  | true ↦ enables a ∷ instant_actions_from as' group
  | false ↦ instant_actions_from as' (add_to_group a group)
])

unfoldable pub handle_valid_instant_actions : List Action → List Dispatched
unfolding instant_actions_from
handle_valid_instant_actions as' =
    instant_actions_from as'
      (record { instant_actions = []; blocking_type_ceiling = none_blocking })

-- A throw of `nextEvent` leaves the handler; what was dispatched before stays so.
unfoldable pub handle_valid_order : ℕ → ℕ → BlockingType → Order → List Dispatched × Interpretation
handle_valid_order fuel rounds uninitialised order =
    let (es, end) = interpret fuel rounds (from_order uninitialised order) in
    elim end [
      | all_events ↦ (map yields es ++ interpreter_done ∷ request_state_update ∷ [], all_events)
      | aborted x ↦ (map yields es, aborted x)
      | unfinished ↦ (map yields es, unfinished)
    ]
