-- ===== src/Checks/Actions/Feasible.antt =====
-- `controlActionFeasible`, and the commands that the scheduler takes.
use text.Mathlib.Text.{◌==◌ as str_eq}
use libvda5050pp.Common.{
  Bool-cases, inl, inr, ap, ◌≡◌, ◌≢◌, ◌↔◌, arith, String, Bool, true, false, not, ◌&&◌, none, refl,
  List, [], ◌∷◌, if◌then◌else◌, invalid_state,
}
use libvda5050pp.Message.{Action}
use libvda5050pp.Order.Dispatch.{OrderStatus}
use libvda5050pp.Order.Scheduler.State.{
  Scheduler, SchedulerStateType, idle, idle_paused, active, paused, returns, throws, transition_all,
}
use libvda5050pp.Order.Scheduler.Tasks.{
  clear_queues, clear_events, interrupt_ids, update_tasks, drop_paused, drop_unpaused,
  drop_terminal, any_terminal, update_navigation, update_tasks_interrupt_mapping,
}
use libvda5050pp.Order.Scheduler.Fetch.{update_fetch_next, fetch_all}
use libvda5050pp.Order.Scheduler.Machine.{
  status_of, cancel, pause, resume, state_cancel, state_pause, state_resume, active_cancel,
  state_update, update_from, canceling_update, idle_update, resuming_update, active_update,
}
use libvda5050pp.Order.Scheduler.Commands.{
  Command, do_cancel, do_pause, do_resume, command, takes, command_refused,
}

unfoldable pub is_pauseable : OrderStatus → Bool
is_pauseable OrderStatus.order_active = true
is_pauseable OrderStatus.order_idle = true
is_pauseable _ = false

unfoldable pub is_resumable : OrderStatus → Bool
is_resumable OrderStatus.order_idle_paused = true
is_resumable OrderStatus.order_paused = true
is_resumable _ = false

unfoldable pub is_cancelable : OrderStatus → Bool
is_cancelable OrderStatus.order_idle_paused = true
is_cancelable OrderStatus.order_active = true
is_cancelable OrderStatus.order_idle = true
is_cancelable OrderStatus.order_paused = true
is_cancelable _ = false

-- The error has the action and the status that it names.
pub data ControlError : Type 0 where
  cannot_pause cannot_resume cannot_cancel : Action → OrderStatus → ControlError

unfoldable pub control_action_feasible : OrderStatus → Action → List ControlError
unfolding is_pauseable is_resumable is_cancelable
control_action_feasible status a =
    if str_eq a.action_type "startPause" && not (is_pauseable status)
    then cannot_pause a status ∷ []
    else (if str_eq a.action_type "stopPause" && not (is_resumable status)
        then cannot_resume a status ∷ []
        else (if str_eq a.action_type "cancelOrder" && not (is_cancelable status)
            then cannot_cancel a status ∷ []
            else []))

-- The type of the control action for a command.
abbrev pub control_type : Command → String
control_type do_cancel = "cancelOrder"
control_type do_pause = "startPause"
control_type do_resume = "stopPause"

feasible-cancel :
    (a : Action) (st : SchedulerStateType)
    → a.action_type ≡ "cancelOrder"
    → (control_action_feasible (status_of st) a ≡ []) ↔ (takes st do_cancel ≡ true)
unfolding control_action_feasible is_pauseable is_resumable is_cancelable
feasible-cancel a st h =
    let p : str_eq a.action_type "startPause" ≡ false = ap (λ t. str_eq t "startPause") h in
    let r : str_eq a.action_type "stopPause" ≡ false = ap (λ t. str_eq t "stopPause") h in
    let c : str_eq a.action_type "cancelOrder" ≡ true = ap (λ t. str_eq t "cancelOrder") h in
    ground arith

feasible-pause :
    (a : Action) (st : SchedulerStateType)
    → a.action_type ≡ "startPause"
    → (control_action_feasible (status_of st) a ≡ []) ↔ (takes st do_pause ≡ true)
unfolding control_action_feasible is_pauseable is_resumable is_cancelable
feasible-pause a st h =
    let p : str_eq a.action_type "startPause" ≡ true = ap (λ t. str_eq t "startPause") h in
    let r : str_eq a.action_type "stopPause" ≡ false = ap (λ t. str_eq t "stopPause") h in
    let c : str_eq a.action_type "cancelOrder" ≡ false = ap (λ t. str_eq t "cancelOrder") h in
    ground arith

feasible-resume :
    (a : Action) (st : SchedulerStateType)
    → a.action_type ≡ "stopPause"
    → (control_action_feasible (status_of st) a ≡ []) ↔ (takes st do_resume ≡ true)
unfolding control_action_feasible is_pauseable is_resumable is_cancelable
feasible-resume a st h =
    let p : str_eq a.action_type "startPause" ≡ false = ap (λ t. str_eq t "startPause") h in
    let r : str_eq a.action_type "stopPause" ≡ true = ap (λ t. str_eq t "stopPause") h in
    let c : str_eq a.action_type "cancelOrder" ≡ false = ap (λ t. str_eq t "cancelOrder") h in
    ground arith

-- In the status that a state of the scheduler reports, a control action for cancel, pause or resume
-- is found feasible exactly if the scheduler takes the command in this state.
pub control_action_feasible-takes :
    (c : Command) (a : Action) (st : SchedulerStateType)
    → a.action_type ≡ control_type c
    → (control_action_feasible (status_of st) a ≡ []) ↔ (takes st c ≡ true)
control_action_feasible-takes do_cancel a st h = feasible-cancel a st h
control_action_feasible-takes do_pause a st h = feasible-pause a st h
control_action_feasible-takes do_resume a st h = feasible-resume a st h

-- Where the check finds a control action for cancel, pause or resume not feasible in the status
-- that the scheduler reports, the command throws and leaves the scheduler as it is.
pub infeasible_refused :
    (c : Command) (a : Action) (s : Scheduler)
    → a.action_type ≡ control_type c
    → control_action_feasible (status_of s.state) a ≢ []
    → command c s ≡ throws invalid_state s
infeasible_refused c a s h k = elim (Bool-cases (takes s.state c)) [
  | inl e ↦ absurd (k ((control_action_feasible-takes c a s.state h).1 e))
  | inr e ↦ command_refused c s e
]

-- A scheduler in the state, without tasks and with empty queues.
abbrev pub at_rest : SchedulerStateType → Scheduler → Scheduler
at_rest st s = record s {
  state = st;
  rcv_evt_queue = [];
  rcv_interrupt_queue = [];
  active_action_tasks = [];
  running_action_tasks = [];
  paused_action_tasks = [];
  nav_interrupting_action_tasks = [];
  navigation_task = none;
}

taken_returns :
    (c : Command) (st : SchedulerStateType) (s : Scheduler)
    → takes st c ≡ true
    → (s' : Scheduler) × (command c (at_rest st s) ≡ returns tt s')
unfolding command cancel pause resume state_cancel state_pause state_resume active_cancel
    state_update update_from canceling_update idle_update resuming_update active_update update_tasks
    drop_paused drop_unpaused drop_terminal any_terminal update_navigation
    update_tasks_interrupt_mapping update_fetch_next fetch_all clear_queues clear_events
    interrupt_ids transition_all
taken_returns do_cancel idle s h = (_, refl)
taken_returns do_cancel idle_paused s h = (_, refl)
taken_returns do_cancel active s h = (_, refl)
taken_returns do_cancel paused s h = (_, refl)
taken_returns do_pause idle s h = (_, refl)
taken_returns do_pause active s h = (_, refl)
taken_returns do_resume idle_paused s h = (_, refl)
taken_returns do_resume paused s h = (_, refl)
taken_returns do_cancel _ s h = absurd (ground arith)
taken_returns do_pause _ s h = absurd (ground arith)
taken_returns do_resume _ s h = absurd (ground arith)

-- The check finds a control action for cancel, pause or resume feasible in the status that a state
-- of the scheduler reports exactly if the command returns, where the scheduler is in that state,
-- without tasks and with empty queues.
pub control_action_feasible_lem :
    (c : Command) (a : Action) (st : SchedulerStateType) (s : Scheduler)
    → a.action_type ≡ control_type c
    → (control_action_feasible (status_of st) a ≡ [])
      ↔ ((s' : Scheduler) × (command c (at_rest st s) ≡ returns tt s'))
control_action_feasible_lem c a st s h = (
  (λ k. taken_returns c st s ((control_action_feasible-takes c a st h).0 k)),
  (λ r. elim (Bool-cases (takes st c)) [
    | inl e ↦ (control_action_feasible-takes c a st h).1 e
    | inr e ↦ let refused = command_refused c (at_rest st s) e in absurd (ground (arith, r.1))
  ]),
)
