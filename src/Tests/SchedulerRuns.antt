-- ===== src/Tests/SchedulerRuns.antt =====
-- The scheduler at small queues.
use libvda5050pp.Common.{◌≡◌, ◌≢◌, refl, inl, inr, some, true, false, none, [], ◌∷◌, arith}
use libvda5050pp.Message.{BlockingType}
use libvda5050pp.Order.Dispatch.{OrderStatus, action_forget, action_cancel, order_status}
use libvda5050pp.Order.ActionTask.Defs.{TaskState, transition, state_transition, state_effect}
use libvda5050pp.Order.Scheduler.State.{
  transition_at, transition_all, Scheduler, SchedulerStateType, InstantGroup, new_scheduler,
  returns, diverged,
}
use libvda5050pp.Order.Scheduler.Tasks.{
  clear_queues, clear_events, interrupt_ids, action_ids, update_tasks,
}
use libvda5050pp.Order.Scheduler.Fetch.{update_fetch_next}
use libvda5050pp.Order.Scheduler.Machine.{cancel, state_cancel, active_cancel, update, update_from}
use libvda5050pp.Order.Scheduler.Rounds.{update_rounds}
use libvda5050pp.Order.Scheduler.Starts.{AllUnblocking}
use libvda5050pp.Order.Scheduler.Exclusion.{Exclusive, Covered, update_fetch_next-Exclusive}
use libvda5050pp.Order.Scheduler.Partition.{steps_to_stop}
use libvda5050pp.Common.IdMap.{find}
use libvda5050pp.Order.Scheduler.TaskMaps.{update_tasks_sorts}
use libvda5050pp.Order.Scheduler.Commands.{cancel_active}
use libvda5050pp.Tests.Data.{lift, beep, lift_group, drive}

-- Two steps, a blocking group, and one more step are queued.
abbrev queued : Scheduler
queued = record new_scheduler {
  rcv_evt_queue = drive 2 false ∷ drive 4 true ∷ lift_group ∷ drive 6 true ∷ [];
}

-- An action that does not block is active.
abbrev beeping : Scheduler
beeping = record queued {
  tasks = record { state = TaskState.running; action = beep } ∷ [];
  active_action_tasks = ("beep", 0) ∷ [];
  running_action_tasks = ("beep", 0) ∷ [];
}

beeping-AllUnblocking : AllUnblocking beeping
beeping-AllUnblocking = ((record { state = TaskState.running; action = beep }, refl, refl), tt)

update_fetch_next-Exclusive_example :
    (s' : Scheduler) × (update_fetch_next beeping ≡ returns tt s') × Exclusive s' × Covered s'
update_fetch_next-Exclusive_example =
    update_fetch_next-Exclusive beeping (tt, (tt, ((λ h. absurd (ground arith)), (tt, tt))))
      (λ h. absurd (ground arith)) (λ h. beeping-AllUnblocking)

update_rounds_example : (update_from 7 queued ≡ update queued) × (update queued ≢ diverged)
update_rounds_example = update_rounds 5 queued

-- A running, a paused and a finished task, and a navigation task on its way.
abbrev busy : Scheduler
busy = record queued {
  state = SchedulerStateType.active;
  tasks =
      record { state = TaskState.running; action = lift }
      ∷ record { state = TaskState.paused; action = beep }
      ∷ record { state = TaskState.finished none; action = beep }
      ∷ [];
  active_action_tasks = ("beep", 1) ∷ ("lift", 0) ∷ ("old", 2) ∷ [];
  running_action_tasks = ("beep", 1) ∷ ("lift", 0) ∷ ("old", 2) ∷ [];
  rcv_interrupt_queue =
      record { instant_actions = beep ∷ []; blocking_type_ceiling = BlockingType.none_blocking }
      ∷ [];
}

update_tasks_sorts_example :
    ((update_tasks busy).tasks ≡ busy.tasks)
    × (find "beep" (update_tasks busy).running_action_tasks ≡ none)
    × (find "beep" (update_tasks busy).paused_action_tasks ≡ some 1)
    × (find "beep" (update_tasks busy).active_action_tasks ≡ some 1)
unfolding find
update_tasks_sorts_example =
    update_tasks_sorts busy "beep" (refl, (refl, (refl, tt))) tt (refl, (refl, (refl, tt)))
      (inr refl)

abbrev beep_group : InstantGroup
beep_group = record {
  instant_actions = beep ∷ [];
  blocking_type_ceiling = BlockingType.none_blocking;
}

abbrev on_break : Scheduler
on_break = record busy { state = SchedulerStateType.paused }

-- A lift that runs while steps, an action group and an instant action wait.
abbrev lifting : Scheduler
lifting = record busy {
  tasks = record { state = TaskState.running; action = lift } ∷ [];
  active_action_tasks = ("lift", 0) ∷ [];
  running_action_tasks = ("lift", 0) ∷ [];
}

abbrev canceled : Scheduler
canceled = record lifting {
  state = SchedulerStateType.canceling;
  tasks = record { state = TaskState.canceling; action = lift } ∷ [];
  rcv_evt_queue = drive 2 false ∷ drive 4 true ∷ [];
  rcv_interrupt_queue = [];
  log =
      action_cancel "lift"
      ∷ action_forget "lift"
      ∷ action_forget "beep"
      ∷ order_status OrderStatus.order_canceling
      ∷ [];
}

cancel_active_example :
    (canceled.state ≡ SchedulerStateType.canceling)
    × (canceled.rcv_interrupt_queue ≡ [])
    × (canceled.rcv_evt_queue ≡ steps_to_stop lifting.rcv_evt_queue)
unfolding cancel state_cancel active_cancel transition_all transition_at transition state_transition
    state_effect clear_queues clear_events interrupt_ids action_ids
cancel_active_example = cancel_active lifting canceled (inl refl) refl

-- The lift, and then the whole order, is paused.
abbrev pausing : Scheduler
pausing = record lifting {
  state = SchedulerStateType.pausing;
  tasks = record { state = TaskState.paused; action = lift } ∷ [];
}

abbrev paused : Scheduler
paused = record pausing {
  state = SchedulerStateType.paused;
  running_action_tasks = [];
  paused_action_tasks = ("lift", 0) ∷ [];
  log = order_status OrderStatus.order_paused ∷ [];
}

abbrev resuming : Scheduler
resuming = record paused {
  state = SchedulerStateType.resuming;
  tasks = record { state = TaskState.running; action = lift } ∷ [];
  log = [];
}

abbrev resumed : Scheduler
resumed = record resuming {
  state = SchedulerStateType.active;
  running_action_tasks = ("lift", 0) ∷ [];
  paused_action_tasks = [];
  log = order_status OrderStatus.order_active ∷ [];
}
