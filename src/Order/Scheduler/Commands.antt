-- ===== src/Order/Scheduler/Commands.antt =====
-- Which commands the scheduler refuses, and what it is left with.
use libvda5050pp.Common.{
  ℕ, ◌≡◌, ◌⊎◌, inl, inr, String, Bool, true, false, List, [], ◌∷◌, ◌++◌, arith, invalid_state,
  is_empty,
}
use libvda5050pp.Order.ActionTask.Defs as ActionTask
use libvda5050pp.Order.ActionTask.Defs.{ActionTransition}
use libvda5050pp.Order.NavigationTask.Defs.{NavigationTransition, do_cancel as nav_cancel}
use libvda5050pp.Order.Scheduler.Rounds.{Outcome-cases}
use libvda5050pp.Order.Scheduler.State.{
  Scheduler, SchedulerStateType, idle, idle_paused, active, canceling, resuming, pausing, paused,
  InstantGroup, M, returns, throws, has_navigation, transition_at, transition_all, navigate,
}
use libvda5050pp.Order.Scheduler.Interrupt.{navigation_paused}
use libvda5050pp.Order.Scheduler.Partition.{steps_to_stop, clear_queues_lem}
use libvda5050pp.Order.Scheduler.Machine.{
  state_cancel, state_pause, state_resume, state_interrupt, state_update, active_cancel,
  pausing_update, resuming_update, cancel, pause, resume, enqueue_interrupt_actions,
}

pub data Command : Type 0 where
  do_cancel do_pause do_resume : Command

unfoldable pub command : Command → M (Unit {0})
command do_cancel = cancel
command do_pause = pause
command do_resume = resume

-- The commands that a state takes.
abbrev pub takes : SchedulerStateType → Command → Bool
takes idle do_cancel = true
takes idle do_pause = true
takes idle_paused do_cancel = true
takes idle_paused do_resume = true
takes active do_cancel = true
takes active do_pause = true
takes paused do_cancel = true
takes paused do_resume = true
takes _ _ = false

abbrev pub takes_interrupt : SchedulerStateType → Bool
takes_interrupt idle = true
takes_interrupt active = true
takes_interrupt _ = false

-- A command that the state does not take throws, and changes nothing.
pub command_refused :
    (c : Command) (s : Scheduler) → takes s.state c ≡ false → command c s ≡ throws invalid_state s
unfolding command cancel pause resume state_cancel state_pause state_resume
command_refused c s h = ground arith

-- A group of instant actions that the state does not take is refused by a throw, and stays in the
-- queue of interrupts all the same.
pub interrupt_refused :
    (g : InstantGroup) (s : Scheduler)
    → takes_interrupt s.state ≡ false
    → enqueue_interrupt_actions g s
      ≡ throws invalid_state (record s { rcv_interrupt_queue = s.rcv_interrupt_queue ++ g ∷ [] })
unfolding enqueue_interrupt_actions state_interrupt
interrupt_refused g s h = ground arith

-- What a transition of tasks leaves alone.
abbrev KeepsQueues : Scheduler → Scheduler → Type 0
KeepsQueues s s' =
    (s'.rcv_evt_queue ≡ s.rcv_evt_queue) × (s'.rcv_interrupt_queue ≡ s.rcv_interrupt_queue)

transition_at-queues :
    (a : ℕ) (t : ActionTransition) (s s' : Scheduler)
    → transition_at a t s ≡ returns tt s'
    → KeepsQueues s s'
unfolding transition_at
transition_at-queues a t s s' h = ground arith

navigate-queues :
    (t : NavigationTransition) (s s' : Scheduler) → navigate t s ≡ returns tt s' → KeepsQueues s s'
unfolding navigate
navigate-queues t s s' h = ground arith

transition_all-queues :
    (m : List (String × ℕ)) (t : ActionTransition) (s s' : Scheduler)
    → transition_all m t s ≡ returns tt s'
    → KeepsQueues s s'
unfolding transition_all
transition_all-queues [] t s s' h = ground arith
transition_all-queues ((id, a) ∷ m) t s s' h = elim (Outcome-cases (transition_at a t s)) [
  | inl (u, s₁, e) ↦ ground (arith, transition_at-queues a t s s₁, transition_all-queues m t s₁ s')
  | inr (inl (x, s₁, e)) ↦ absurd (ground arith)
  | inr (inr e) ↦ absurd (ground arith)
]

active_cancel-queues :
    (s s' : Scheduler) (again : Bool)
    → active_cancel s ≡ returns again s'
    → (again ≡ false)
      × (s'.state ≡ canceling)
      × (s'.rcv_interrupt_queue ≡ [])
      × (s'.rcv_evt_queue ≡ steps_to_stop s.rcv_evt_queue)
unfolding active_cancel
active_cancel-queues s s' again h =
    elim (Outcome-cases (transition_all s.active_action_tasks ActionTask.do_cancel s)) [
      | inr (inl (x, s₁, e)) ↦ absurd (ground arith)
      | inr (inr e) ↦ absurd (ground arith)
      | inl (u, s₁, e) ↦ elim (Outcome-cases (navigate nav_cancel s₁)) [
        | inl (v, s₂, e₂) ↦ ground (
          arith,
          transition_all-queues s.active_action_tasks ActionTask.do_cancel s s₁,
          navigate-queues nav_cancel s₁ s₂,
          clear_queues_lem true s₁,
          clear_queues_lem true s₂,
        )
        | inr e' ↦ ground (
          arith,
          transition_all-queues s.active_action_tasks ActionTask.do_cancel s s₁,
          clear_queues_lem true s₁,
        )
      ]
    ]

-- If the cancel of an active or of a paused scheduler returns, the scheduler is canceling, no
-- interrupt is queued any more, and the event queue is its navigation steps, in order, up to and
-- with the first one that stops at its goal.
pub cancel_active :
    (s s' : Scheduler)
    → (s.state ≡ active) ⊎ (s.state ≡ paused)
    → cancel s ≡ returns tt s'
    → (s'.state ≡ canceling)
      × (s'.rcv_interrupt_queue ≡ [])
      × (s'.rcv_evt_queue ≡ steps_to_stop s.rcv_evt_queue)
unfolding cancel state_cancel
cancel_active s s' active_or_paused h = elim (Outcome-cases (active_cancel s)) [
  | inl (again, s₁, e) ↦ ground (arith, active_cancel-queues s s₁ again)
  | inr e' ↦ absurd (ground arith)
]

-- If an update of a pausing scheduler returns, the scheduler is still pausing, or it is paused, no
-- task runs any more, and the navigation, if there is one, is paused.
pub pausing_settles :
    (s s' : Scheduler) (again : Bool)
    → state_update pausing s ≡ returns again s'
    → (s'.state ≡ pausing)
      ⊎ ((s'.state ≡ paused)
          × (is_empty s'.running_action_tasks ≡ true)
          × ((has_navigation s' ≡ false) ⊎ (navigation_paused s' ≡ true)))
unfolding state_update pausing_update
pausing_settles s s' again h = ground arith

-- If an update of a resuming scheduler returns, the scheduler is still resuming, or it is active,
-- no task is paused any more, and neither is the navigation.
pub resuming_settles :
    (s s' : Scheduler) (again : Bool)
    → state_update resuming s ≡ returns again s'
    → (s'.state ≡ resuming)
      ⊎ ((s'.state ≡ active)
          × (is_empty s'.paused_action_tasks ≡ true)
          × (navigation_paused s' ≡ false))
unfolding state_update resuming_update
resuming_settles s s' again h = ground arith
