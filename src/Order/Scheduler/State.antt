-- ===== src/Order/Scheduler/State.antt =====
-- The members of `Scheduler`, and the monad of its methods. The task objects live on a heap, their
-- addresses are the positions in `tasks`, and the maps share them by address, as the code shares
-- them by pointer. A throw keeps what was changed before it. The lock that every public method
-- holds makes each of them one step.
use libvda5050pp.Common.{
  ℕ, String, Bool, true, false, Option, none, some, List, [], ◌∷◌, ◌++◌, Error, undefined, ok, err,
  get_elem?, set,
}
use libvda5050pp.Message.{Action, Node, Edge, BlockingType, none_blocking, hard_blocking}
use libvda5050pp.Order.Dispatch.{Dispatch}
use libvda5050pp.Order.ActionTask.Defs.{
  ActionTask, ActionTransition, transition as action_transition, state_is_paused, state_is_terminal,
}
use libvda5050pp.Order.NavigationTask.Defs.{
  NavigationTask, NavigationTransition, transition as navigation_transition,
}

pub data SchedulerStateType : Type 0 where
  idle idle_paused active canceling resuming pausing paused failed interrupting : SchedulerStateType

-- The interpreter events that reach `rcv_evt_queue_`: only these two kinds are subscribed.
pub data QueueEvent : Type 0 where
  navigation_step : Node → Edge → Bool → QueueEvent
  action_group : List Action → BlockingType → QueueEvent

-- `YieldInstantActionGroup`
pub record InstantGroup : Type 0 where
  pub instant_actions : List Action
  pub blocking_type_ceiling : BlockingType

pub record Scheduler : Type 0 where
  pub state : SchedulerStateType
  pub rcv_evt_queue : List QueueEvent
  pub rcv_evt_queue_staging : List QueueEvent
  pub rcv_interrupt_queue : List InstantGroup
  pub current_action_blocking_type : BlockingType
  pub current_segment : Option (ℕ × ℕ)
  pub tasks : List ActionTask
  pub active_action_tasks : List (String × ℕ)
  pub running_action_tasks : List (String × ℕ)
  pub paused_action_tasks : List (String × ℕ)
  pub nav_interrupting_action_tasks : List (String × ℕ)
  pub navigation_task : Option NavigationTask
  pub log : List Dispatch

abbrev pub new_scheduler : Scheduler
new_scheduler = record {
  state = idle;
  rcv_evt_queue = [];
  rcv_evt_queue_staging = [];
  rcv_interrupt_queue = [];
  current_action_blocking_type = none_blocking;
  current_segment = none;
  tasks = [];
  active_action_tasks = [];
  running_action_tasks = [];
  paused_action_tasks = [];
  nav_interrupting_action_tasks = [];
  navigation_task = none;
  log = [];
}

-- `diverged` stands for a recursion that outlasts its fuel.
pub data Outcome (A : Type 0) : Type 0 where
  returns : A → Scheduler → Outcome A
  throws : Error → Scheduler → Outcome A
  diverged : Outcome A

abbrev pub M : Type 0 → Type 0
M A = Scheduler → Outcome A

infixl 5 ◌>>=◌ ◌>>◌
abbrev pub ◌>>=◌ : {A B : Type 0} → M A → (A → M B) → M B
◌>>=◌ m f s = elim (m s) [ returns a s' ↦ f a s' | throws e s' ↦ throws e s' | diverged ↦ diverged ]

abbrev pub ◌>>◌ : {B : Type 0} → M (Unit {0}) → M B → M B
m >> k = m >>= λ _. k

abbrev pub return : {A : Type 0} → A → M A
return a s = returns a s

abbrev pub throw : {A : Type 0} → Error → M A
throw e s = throws e s

abbrev pub modify : (Scheduler → Scheduler) → M (Unit {0})
modify f s = returns tt (f s)

-- `task->transition(...)` through a pointer to the task.
unfoldable pub transition_at : ℕ → ActionTransition → M (Unit {0})
transition_at address t s = elim (get_elem? s.tasks address) [
  | none ↦ throws undefined s
  | some task ↦ elim (action_transition task t) [
    | err e ↦ throws e s
    | ok (task', out) ↦
        returns tt (record s { tasks = set s.tasks address task'; log = s.log ++ out })
  ]
]

-- The same for every entry of a map, in its order.
unfoldable pub transition_all : List (String × ℕ) → ActionTransition → M (Unit {0})
transition_all [] t s = returns tt s
transition_all ((id, address) ∷ m) t s = (transition_at address t >> transition_all m t) s

-- `navigation_task_->transition(...)`
unfoldable pub navigate : NavigationTransition → M (Unit {0})
navigate t s = elim s.navigation_task [
  | none ↦ throws undefined s
  | some task ↦ elim (navigation_transition task t) [
    | err e ↦ throws e s
    | ok (task', out) ↦ returns tt (record s { navigation_task = some task'; log = s.log ++ out })
  ]
]

abbrev pub has_navigation : Scheduler → Bool
has_navigation s = elim s.navigation_task [ none ↦ false | some t ↦ true ]

-- `isPaused()` and `isTerminal()` through a pointer.
abbrev pub paused_at : List ActionTask → ℕ → Bool
paused_at tasks address = elim (get_elem? tasks address) [
  | none ↦ false
  | some t ↦ state_is_paused t.state
]

abbrev pub terminal_at : List ActionTask → ℕ → Bool
terminal_at tasks address = elim (get_elem? tasks address) [
  | none ↦ false
  | some t ↦ state_is_terminal t.state
]

abbrev pub is_hard : BlockingType → Bool
is_hard hard_blocking = true
is_hard _ = false

abbrev pub is_none : BlockingType → Bool
is_none none_blocking = true
is_none _ = false

abbrev pub hard_at : List ActionTask → ℕ → Bool
hard_at tasks address = elim (get_elem? tasks address) [
  | none ↦ false
  | some t ↦ is_hard t.action.blocking_type
]
