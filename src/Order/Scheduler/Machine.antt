-- ===== src/Order/Scheduler/Machine.antt =====
-- The state classes of scheduler.cpp and the public methods of `Scheduler`. A method of a state
-- class ends with the state that replaces it and tells whether an update is to follow.
use libvda5050pp.Common.{
  ℕ, zero, suc, String, Bool, true, false, not, ◌&&◌, ◌||◌, Option, none, some, List, [], ◌∷◌, ◌++◌,
  is_empty, invalid_state, invalid_argument, null_pointer, if◌then◌else◌,
}
use libvda5050pp.Common.IdMap.{find}
use libvda5050pp.Order.Dispatch.{OrderStatus, order_status}
use libvda5050pp.Order.ActionTask.Defs.{ActionTransition, do_cancel, do_pause, do_resume}
use libvda5050pp.Order.NavigationTask.Defs.{
  NavigationTransition, is_terminal, do_cancel as nav_cancel, do_pause as nav_pause,
  do_resume as nav_resume,
}
use libvda5050pp.Order.Scheduler.State.{
  Scheduler, SchedulerStateType, idle, idle_paused, active, canceling, resuming, pausing, paused,
  failed, interrupting, QueueEvent, InstantGroup, M, returns, throws, diverged, ◌>>=◌, ◌>>◌, modify,
  throw, transition_at, transition_all, navigate, has_navigation,
}
use libvda5050pp.Order.Scheduler.Tasks.{clear_queues, update_tasks, update_tasks_interrupt_mapping}
use libvda5050pp.Order.Scheduler.Fetch.{update_fetch_next}
use libvda5050pp.Order.Scheduler.Interrupt.{
  do_interrupt, update_fetch_next_interrupt, navigation_paused,
}

abbrev pub status_of : SchedulerStateType → OrderStatus
status_of idle = OrderStatus.order_idle
status_of idle_paused = OrderStatus.order_idle_paused
status_of active = OrderStatus.order_active
status_of canceling = OrderStatus.order_canceling
status_of resuming = OrderStatus.order_resuming
status_of pausing = OrderStatus.order_pausing
status_of paused = OrderStatus.order_paused
status_of failed = OrderStatus.order_failed
status_of interrupting = OrderStatus.order_interrupting

-- `SchedulerIdle` also closes the current segment.
abbrev segment_in : SchedulerStateType → Option (ℕ × ℕ) → Option (ℕ × ℕ)
segment_in idle segment = none
segment_in _ segment = segment

-- The constructor of a state class, with `notify`, and the assignment to `state_`; `again` asks
-- for an update.
abbrev pub enter : SchedulerStateType → Bool → Bool → M Bool
enter t notify again s = returns again (record s {
  state = t;
  current_segment = segment_in t s.current_segment;
  log = if notify then s.log ++ order_status (status_of t) ∷ [] else s.log;
})

abbrev pub navigation_terminal : Scheduler → Bool
navigation_terminal s = elim s.navigation_task [ none ↦ false | some t ↦ is_terminal t ]

-- The navigation, unless there is none or the test holds of it.
abbrev navigate_unless : Bool → NavigationTransition → M (Unit {0})
navigate_unless skip t s = if not (has_navigation s) || skip then returns tt s else navigate t s

unfoldable pub active_cancel : M Bool
active_cancel s =
    ((transition_all s.active_action_tasks do_cancel
          >> (λ r. navigate_unless (navigation_paused r || navigation_terminal r) nav_cancel r))
        >> (modify (clear_queues true) >> enter canceling true false))
      s

-- The other methods that do not throw, one for each state class.
abbrev pub idle_cancel : M Bool
idle_cancel = enter canceling false true

abbrev pub idle_pause : M Bool
idle_pause = enter idle_paused true false

abbrev pub idle_interrupt : M Bool
idle_interrupt = do_interrupt >> enter interrupting true true

abbrev pub idle_paused_cancel : M Bool
idle_paused_cancel = modify (clear_queues false) >> enter idle_paused false false

abbrev pub idle_paused_resume : M Bool
idle_paused_resume = enter idle true true

abbrev pub active_pause : M Bool
active_pause s =
    ((transition_all s.running_action_tasks do_pause >> navigate_unless false nav_pause)
        >> enter pausing true false)
      s

abbrev pub active_interrupt : M Bool
active_interrupt = do_interrupt >> enter interrupting true true

abbrev pub paused_resume : M Bool
paused_resume s =
    ((transition_all s.paused_action_tasks do_resume >> navigate_unless false nav_resume)
        >> enter resuming true true)
      s

-- Which method a state class has; a class that is not listed throws.
unfoldable pub state_cancel : SchedulerStateType → M Bool
state_cancel idle = idle_cancel
state_cancel idle_paused = idle_paused_cancel
state_cancel active = active_cancel
state_cancel paused = active_cancel
state_cancel _ = throw invalid_state

unfoldable pub state_pause : SchedulerStateType → M Bool
state_pause idle = idle_pause
state_pause active = active_pause
state_pause _ = throw invalid_state

unfoldable pub state_resume : SchedulerStateType → M Bool
state_resume idle_paused = idle_paused_resume
state_resume paused = paused_resume
state_resume _ = throw invalid_state

unfoldable pub state_interrupt : SchedulerStateType → M Bool
state_interrupt idle = idle_interrupt
state_interrupt active = active_interrupt
state_interrupt _ = throw invalid_state

unfoldable pub idle_update : M Bool
idle_update = update_fetch_next >> λ s.
    (if has_navigation s || not (is_empty s.active_action_tasks)
      then enter active true false s
      else enter idle false false s)

unfoldable pub active_update : M Bool
active_update =
    modify update_tasks
    >> (update_tasks_interrupt_mapping
        >> (update_fetch_next >> λ s.
            (if is_empty s.active_action_tasks && (not (has_navigation s) || navigation_terminal s)
              then enter idle true false s
              else enter active false false s)))

unfoldable pub canceling_update : M Bool
canceling_update =
    modify update_tasks
    >> (update_tasks_interrupt_mapping
        >> (update_fetch_next >> λ s.
            (if is_empty s.active_action_tasks && not (has_navigation s)
              then enter idle true false s
              else enter canceling false false s)))

unfoldable pub resuming_update : M Bool
resuming_update =
    modify update_tasks
    >> (update_tasks_interrupt_mapping >> λ s.
        (if not (is_empty s.paused_action_tasks) || navigation_paused s
          then enter resuming false false s
          else enter active true true s))

unfoldable pub pausing_update : M Bool
pausing_update =
    modify update_tasks
    >> (update_tasks_interrupt_mapping >> λ s.
        (if not (is_empty s.running_action_tasks)
          then enter pausing false false s
          else (if has_navigation s && not (navigation_paused s)
              then enter pausing false false s
              else enter paused true false s)))

unfoldable pub interrupting_update : M Bool
interrupting_update =
    modify update_tasks
    >> (update_fetch_next_interrupt >> λ s.
        (if is_empty s.rcv_interrupt_queue
          then enter active true false s
          else enter interrupting false false s))

unfoldable pub state_update : SchedulerStateType → M Bool
state_update idle = idle_update
state_update idle_paused = enter idle_paused false false
state_update active = active_update
state_update canceling = canceling_update
state_update resuming = resuming_update
state_update pausing = pausing_update
state_update paused =
    modify update_tasks >> (update_tasks_interrupt_mapping >> enter paused false false)
state_update failed = enter failed false false
state_update interrupting = interrupting_update

-- `Scheduler::update` calls itself as long as the state asks for it.
unfoldable pub update_from : ℕ → M (Unit {0})
update_from zero s = diverged
update_from (suc fuel) s = elim (state_update s.state s) [
  | returns again s' ↦ let rest = update_from fuel s' in if again then rest else returns tt s'
  | throws e s' ↦ throws e s'
  | diverged ↦ diverged
]

-- The fuel is two rounds; `Rounds` is about more.
abbrev pub update : M (Unit {0})
update = update_from 2

-- The end of every public method.
abbrev pub then_update : M Bool → M (Unit {0})
then_update m = m >>= λ again. if again then update else (λ s. returns tt s)

unfoldable pub cancel : M (Unit {0})
cancel s = then_update (state_cancel s.state) s

unfoldable pub pause : M (Unit {0})
pause s = then_update (state_pause s.state) s

unfoldable pub resume : M (Unit {0})
resume s = then_update (state_resume s.state) s

unfoldable pub action_transition : String → ActionTransition → M (Unit {0})
action_transition action_id t s = elim (find action_id s.active_action_tasks) [
  | none ↦ throws invalid_argument s
  | some address ↦ (transition_at address t >> update) s
]

unfoldable pub navigation_transition : NavigationTransition → M (Unit {0})
navigation_transition t s =
    if has_navigation s then (navigate t >> update) s else throws null_pointer s

unfoldable pub enqueue_interrupt_actions : InstantGroup → M (Unit {0})
enqueue_interrupt_actions g s =
    then_update (state_interrupt s.state)
      (record s { rcv_interrupt_queue = s.rcv_interrupt_queue ++ g ∷ [] })

unfoldable pub enqueue : QueueEvent → M (Unit {0})
enqueue e s = returns tt (record s { rcv_evt_queue_staging = s.rcv_evt_queue_staging ++ e ∷ [] })

-- The loop moves the staged events one by one.
unfoldable pub move_staged : List QueueEvent → List QueueEvent → List QueueEvent
move_staged q [] = q
move_staged q (e ∷ staging) = move_staged (q ++ e ∷ []) staging

unfoldable pub commit_queue : M (Unit {0})
commit_queue s = update (record s {
  rcv_evt_queue = move_staged s.rcv_evt_queue s.rcv_evt_queue_staging;
  rcv_evt_queue_staging = [];
})
