-- ===== src/Order/Scheduler/Tasks.antt =====
-- `clearQueues`, `updateTasks` and `updateTasksInterruptMapping`.
use libvda5050pp.Common.{
  ℕ, String, Bool, false, not, ◌&&◌, ◌||◌, none, some, List, [], ◌∷◌, ◌++◌, map, is_empty,
  if◌then◌else◌,
}
use libvda5050pp.Common.IdMap.{insert}
use libvda5050pp.Message.{Action}
use libvda5050pp.Order.Dispatch.{action_forget}
use libvda5050pp.Order.ActionTask.Defs.{ActionTask}
use libvda5050pp.Order.NavigationTask.Defs.{is_terminal, task_is_failed, do_resume}
use libvda5050pp.Order.Scheduler.State.{
  Scheduler, QueueEvent, navigation_step, action_group, InstantGroup, M, returns, navigate,
  has_navigation, paused_at, terminal_at,
}

unfoldable pub action_ids : List Action → List String
action_ids = map λ a. a.action_id

-- The loop over the event queue: the ids to forget, and the navigation steps that stay, the first
-- one that stops at its goal being the last.
unfoldable pub clear_events : Bool → Bool → List QueueEvent → List String × List QueueEvent
clear_events keep_nav reached_blocking [] = ([], [])
clear_events keep_nav reached_blocking (action_group actions ceiling ∷ q) =
    let (ids, kept) = clear_events keep_nav reached_blocking q in (action_ids actions ++ ids, kept)
clear_events keep_nav reached_blocking (navigation_step goal via stop ∷ q) =
    let keep = keep_nav && not reached_blocking in
    let (ids, kept) = clear_events keep_nav (if keep then stop else reached_blocking) q in
    (ids, if keep then navigation_step goal via stop ∷ kept else kept)

unfoldable pub interrupt_ids : List InstantGroup → List String
interrupt_ids [] = []
interrupt_ids (g ∷ q) = action_ids g.instant_actions ++ interrupt_ids q

unfoldable pub clear_queues : Bool → Scheduler → Scheduler
clear_queues keep_nav s =
    let (ids, kept) = clear_events keep_nav false s.rcv_evt_queue in
    record s {
      rcv_evt_queue = kept;
      rcv_interrupt_queue = [];
      log = s.log ++ map action_forget (ids ++ interrupt_ids s.rcv_interrupt_queue);
    }

-- Paused tasks leave the first map for the second; ended ones leave it altogether.
unfoldable pub drop_paused :
    List ActionTask → List (String × ℕ) → List (String × ℕ) → List (String × ℕ) × List (String × ℕ)
drop_paused tasks [] paused = ([], paused)
drop_paused tasks ((id, a) ∷ m) paused =
    let (rest, paused') =
      drop_paused tasks m
        (if paused_at tasks a && not (terminal_at tasks a) then insert id a paused else paused) in
    (if paused_at tasks a || terminal_at tasks a then rest else (id, a) ∷ rest, paused')

-- Tasks that are not paused leave the first map for the second; ended ones leave it altogether.
unfoldable pub drop_unpaused :
    List ActionTask → List (String × ℕ) → List (String × ℕ) → List (String × ℕ) × List (String × ℕ)
drop_unpaused tasks [] running = ([], running)
drop_unpaused tasks ((id, a) ∷ m) running =
    let (rest, running') = drop_unpaused tasks m (
      if not (paused_at tasks a) && not (terminal_at tasks a)
      then insert id a running
      else running) in
    (if not (paused_at tasks a) || terminal_at tasks a then rest else (id, a) ∷ rest, running')

unfoldable pub drop_terminal : List ActionTask → List (String × ℕ) → List (String × ℕ)
drop_terminal tasks [] = []
drop_terminal tasks ((id, a) ∷ m) =
    if terminal_at tasks a then drop_terminal tasks m else (id, a) ∷ drop_terminal tasks m

unfoldable pub update_navigation : Scheduler → Scheduler
update_navigation s = elim s.navigation_task [
  | none ↦ s
  | some nt ↦
      if is_terminal nt
      then record (if task_is_failed nt then clear_queues false s else s) { navigation_task = none }
      else s
]

unfoldable pub update_tasks : Scheduler → Scheduler
update_tasks s =
    let (running, paused) = drop_paused s.tasks s.running_action_tasks s.paused_action_tasks in
    let (paused', running') = drop_unpaused s.tasks paused running in
    update_navigation (record s {
      active_action_tasks = drop_terminal s.tasks s.active_action_tasks;
      running_action_tasks = running';
      paused_action_tasks = paused';
    })

unfoldable pub any_terminal : List ActionTask → List (String × ℕ) → Bool
any_terminal tasks [] = false
any_terminal tasks ((id, a) ∷ m) = terminal_at tasks a || any_terminal tasks m

unfoldable pub update_tasks_interrupt_mapping : M (Unit {0})
update_tasks_interrupt_mapping s =
    let kept = drop_terminal s.tasks s.nav_interrupting_action_tasks in
    let s' = record s { nav_interrupting_action_tasks = kept } in
    if any_terminal s.tasks s.nav_interrupting_action_tasks && (is_empty kept && has_navigation s)
    then navigate do_resume s'
    else returns tt s'
