-- ===== src/Order/Handler/Defs.antt =====
-- The handlers of `OrderEventHandler`. An event that is null is `none`. `caught` is the try block
-- around the calls of the scheduler.
use libvda5050pp.Common.{
  ℕ, String, Bool, true, false, Option, none, some, List, [], ◌∷◌, ◌++◌, Error, invalid_event_data,
  timed_out, out_of_range, undefined,
}
use libvda5050pp.Message.{Action, Payload}
use libvda5050pp.Order.ActionTask.Defs as ActionTask
use libvda5050pp.Order.NavigationTask.Defs as NavigationTask
use libvda5050pp.Order.Scheduler.State.{
  Scheduler, QueueEvent, InstantGroup, Outcome, returns, throws, diverged, M,
}
use libvda5050pp.Order.Scheduler.Machine.{
  enqueue, enqueue_interrupt_actions, commit_queue, action_transition, navigation_transition,
  cancel, pause, resume,
}
use libvda5050pp.Order.Scheduler.Commands.{Command, do_cancel, do_pause, do_resume}

-- The exceptions of the library derive from `VDA5050PPError`; `std::out_of_range` does not.
abbrev pub is_library_error : Error → Bool
is_library_error out_of_range = false
is_library_error undefined = false
is_library_error _ = true

unfoldable pub caught : M (Unit {0}) → M (Unit {0})
caught m s = elim (m s) [
  | returns _ s' ↦ returns tt s'
  | throws e s' ↦ (elim (is_library_error e) [ true ↦ returns tt s' | false ↦ throws e s' ])
  | diverged ↦ diverged
]

-- The null check in front of every handler.
unfoldable pub with_event : {A : Type 0} → (A → M (Unit {0})) → Option A → M (Unit {0})
with_event f none s = throws invalid_event_data s
with_event f (some a) s = f a s

unfoldable pub handle_yield_normal : Option QueueEvent → M (Unit {0})
unfolding with_event caught
handle_yield_normal = with_event (λ e. caught (enqueue e))

unfoldable pub handle_yield_instant_action_group : Option InstantGroup → M (Unit {0})
unfolding with_event caught
handle_yield_instant_action_group = with_event (λ g. caught (enqueue_interrupt_actions g))

unfoldable pub handle_interpreter_done : Option (Unit {0}) → M (Unit {0})
unfolding with_event caught
handle_interpreter_done = with_event (λ done. caught commit_queue)

-- The id of the action, and its result where it has finished.
unfoldable pub handle_action_failed : Option String → M (Unit {0})
unfolding with_event caught
handle_action_failed =
    with_event (λ id. caught (action_transition id ActionTask.ActionTransition.is_failed))

unfoldable pub handle_action_finished : Option (String × Option String) → M (Unit {0})
unfolding with_event caught
handle_action_finished =
    with_event (λ e. caught (action_transition e.0 (ActionTask.ActionTransition.is_finished e.1)))

unfoldable pub handle_action_initializing : Option String → M (Unit {0})
unfolding with_event caught
handle_action_initializing =
    with_event (λ id. caught (action_transition id ActionTask.ActionTransition.is_initializing))

unfoldable pub handle_action_paused : Option String → M (Unit {0})
unfolding with_event caught
handle_action_paused =
    with_event (λ id. caught (action_transition id ActionTask.ActionTransition.is_paused))

unfoldable pub handle_action_running : Option String → M (Unit {0})
unfolding with_event caught
handle_action_running =
    with_event (λ id. caught (action_transition id ActionTask.ActionTransition.is_running))

pub data NavigationStatus : Type 0 where
  status_paused status_resumed status_failed : NavigationStatus

abbrev pub navigation_status : NavigationStatus → NavigationTask.NavigationTransition
navigation_status status_paused = NavigationTask.NavigationTransition.is_paused
navigation_status status_resumed = NavigationTask.NavigationTransition.is_resumed
navigation_status status_failed = NavigationTask.NavigationTransition.is_failed

unfoldable pub handle_navigation_control : Option NavigationStatus → M (Unit {0})
unfolding with_event caught
handle_navigation_control =
    with_event (λ status. caught (navigation_transition (navigation_status status)))

-- A node that is reached is passed on by its sequence id, if it has one.
abbrev reach : Option ℕ → M (Unit {0})
reach none s = returns tt s
reach (some seq) s =
    caught (navigation_transition (NavigationTask.NavigationTransition.to_seq_id seq)) s

unfoldable pub handle_navigation_node : Option (Option ℕ) → M (Unit {0})
unfolding with_event caught
handle_navigation_node = with_event reach

-- What `handleOrderControl` sends: errors of the query, and the failure of the action.
pub data Sent : Type 0 where
  error_add : Payload → Sent
  action_status_failed : String → Sent

abbrev pub send_errors : List Payload → List Sent
send_errors [] = []
send_errors (e ∷ es) = error_add e ∷ send_errors es

-- The scheduler is asked if the query's answer has no errors. Without an answer `wait_for` times
-- out.
unfoldable pub ask :
    Option (List Payload) → Action → M (Unit {0}) → Scheduler → List Sent × Outcome (Unit {0})
ask none a m s = ([], throws timed_out s)
ask (some []) a m s = ([], m s)
ask (some (e ∷ es)) a m s =
    (send_errors (e ∷ es) ++ action_status_failed a.action_id ∷ [], returns tt s)

-- `pauseable` and `resumable` are the answers of the AGV's handlers to the two queries.
unfoldable pub handle_order_control :
    Option (List Payload)
    → Option (List Payload)
    → Option (Command × Action)
    → Scheduler
    → List Sent × Outcome (Unit {0})
unfolding ask
handle_order_control pauseable resumable none s = ([], throws invalid_event_data s)
handle_order_control pauseable resumable (some (do_cancel, a)) s = ([], cancel s)
handle_order_control pauseable resumable (some (do_pause, a)) s = ask pauseable a pause s
handle_order_control pauseable resumable (some (do_resume, a)) s = ask resumable a resume s
