-- ===== src/Interpreter/Deliver.antt =====
-- The log of the two handlers.
use libvda5050pp.Common.{ℕ, ◌+◌, ◌≡◌, arith, List, [], ◌∷◌, ◌++◌, map, if◌then◌else◌}
use libvda5050pp.Message.{Action, Node, Order, BlockingType}
use libvda5050pp.Order.Scheduler.State.{InstantGroup}
use libvda5050pp.Interpreter.Events.{Event}
use libvda5050pp.Interpreter.Handlers.{all_events}
use libvda5050pp.Interpreter.Expected.{Leg, OrderPath, order_events}
use libvda5050pp.Interpreter.Whole.{interpret_order}
use libvda5050pp.Interpreter.Ceiling.{highest}
use libvda5050pp.Interpreter.Receive.{
  Dispatched, yields, instant_action_group, enables, interpreter_done, request_state_update,
  is_control_instant_action, handle_valid_order,
}

-- For every order that is a path (the first node and the base released, the horizon not, the
-- sequence ids growing along it) there is an amount of fuel and of rounds from which on
-- handleValidOrder ends without a throw, and dispatches exactly the events that the path is to be
-- translated to, leg by leg, the graph of all its elements behind them, then the end of the
-- interpretation and a request to send the state.
pub handle_valid_order_lem :
    (uninitialised : BlockingType) (order : Order) (n : Node) (base horizon : List Leg)
    → OrderPath order n base horizon
    → (f : ℕ) × (r : ℕ) × ((i j : ℕ)
        → handle_valid_order (f + i) (r + j) uninitialised order ≡ (
          map yields (order_events uninitialised order n base (base ++ horizon))
              ++ interpreter_done ∷ request_state_update ∷ [],
          all_events,
        ))
unfolding handle_valid_order
handle_valid_order_lem c order n base horizon path =
    let (f, r, run) = interpret_order c order n base horizon path in
    (f, r, λ i j. let es = run i j in ground arith)

-- The control actions, and the others.
unfoldable pub controls : List Action → List Action
controls [] = []
controls (a ∷ as') = if is_control_instant_action a then a ∷ controls as' else controls as'

unfoldable pub others : List Action → List Action
others [] = []
others (a ∷ as') = if is_control_instant_action a then others as' else a ∷ others as'

unfoldable pub news_of : List Dispatched → List Event
news_of [] = []
news_of (yields e ∷ ds) = e ∷ news_of ds
news_of (instant_action_group g ∷ ds) = news_of ds
news_of (enables a ∷ ds) = news_of ds
news_of (interpreter_done ∷ ds) = news_of ds
news_of (request_state_update ∷ ds) = news_of ds

unfoldable pub enabled : List Dispatched → List Action
enabled [] = []
enabled (enables a ∷ ds) = a ∷ enabled ds
enabled (yields e ∷ ds) = enabled ds
enabled (instant_action_group g ∷ ds) = enabled ds
enabled (interpreter_done ∷ ds) = enabled ds
enabled (request_state_update ∷ ds) = enabled ds

unfoldable pub instant_groups : List Dispatched → List InstantGroup
instant_groups [] = []
instant_groups (instant_action_group g ∷ ds) = g ∷ instant_groups ds
instant_groups (yields e ∷ ds) = instant_groups ds
instant_groups (enables a ∷ ds) = instant_groups ds
instant_groups (interpreter_done ∷ ds) = instant_groups ds
instant_groups (request_state_update ∷ ds) = instant_groups ds

abbrev pub group_of : List Action → List InstantGroup
group_of [] = []
group_of (a ∷ as') =
    record { instant_actions = a ∷ as'; blocking_type_ceiling = highest (a ∷ as') } ∷ []
