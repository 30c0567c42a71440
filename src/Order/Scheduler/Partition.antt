-- ===== src/Order/Scheduler/Partition.antt =====
-- What `updateTasks` and `clearQueues` leave.
use libvda5050pp.Common.{
  ℕ, ◌≡◌, refl, inl, inr, String, Bool, true, false, not, List, [], ◌∷◌, ◌++◌, map, arith, All,
  if◌then◌else◌, Bool-cases, ◌&&◌,
}
use libvda5050pp.Common.IdMap.{insert, insert-All}
use libvda5050pp.Order.Dispatch.{action_forget}
use libvda5050pp.Order.ActionTask.Defs.{ActionTask}
use libvda5050pp.Order.Scheduler.State.{
  Scheduler, QueueEvent, navigation_step, action_group, paused_at, terminal_at,
}
use libvda5050pp.Order.Scheduler.Tasks.{
  action_ids, clear_events, interrupt_ids, clear_queues, drop_paused, drop_unpaused, drop_terminal,
  update_navigation, update_tasks,
}

-- The task of an entry runs: it is neither paused nor at an end.
abbrev pub Runs : List ActionTask → String × ℕ → Type 0
Runs tasks e = (paused_at tasks e.1 ≡ false) × (terminal_at tasks e.1 ≡ false)

abbrev pub Rests : List ActionTask → String × ℕ → Type 0
Rests tasks e = (paused_at tasks e.1 ≡ true) × (terminal_at tasks e.1 ≡ false)

drop_paused-Runs :
    (tasks : List ActionTask) (m p : List (String × ℕ)) → All (Runs tasks) (drop_paused tasks m p).0
unfolding drop_paused
drop_paused-Runs tasks [] p = tt
drop_paused-Runs tasks ((id, a) ∷ m) p = ground (
  arith,
  drop_paused-Runs tasks m
      (if paused_at tasks a && not (terminal_at tasks a) then insert id a p else p),
)

drop_unpaused-Rests :
    (tasks : List ActionTask) (m r : List (String × ℕ))
    → All (Rests tasks) (drop_unpaused tasks m r).0
unfolding drop_unpaused
drop_unpaused-Rests tasks [] r = tt
drop_unpaused-Rests tasks ((id, a) ∷ m) r = ground (
  arith,
  drop_unpaused-Rests tasks m
      (if not (paused_at tasks a) && not (terminal_at tasks a) then insert id a r else r),
)

drop_unpaused-Runs :
    (tasks : List ActionTask) (m r : List (String × ℕ))
    → All (Runs tasks) r
    → All (Runs tasks) (drop_unpaused tasks m r).1
unfolding drop_unpaused
drop_unpaused-Runs tasks [] r h = h
drop_unpaused-Runs tasks ((id, a) ∷ m) r h =
    elim (Bool-cases (not (paused_at tasks a) && not (terminal_at tasks a))) [
      | inl runs ↦ rw runs (
          drop_unpaused-Runs tasks m (insert id a r)
            (insert-All (Runs tasks) id a r (ground arith, ground arith) h))
      | inr rests ↦ rw rests (drop_unpaused-Runs tasks m r h)
    ]

drop_terminal-All :
    (tasks : List ActionTask) (m : List (String × ℕ))
    → All (λ e. terminal_at tasks e.1 ≡ false) (drop_terminal tasks m)
unfolding drop_terminal
drop_terminal-All tasks [] = tt
drop_terminal-All tasks ((id, a) ∷ m) = ground (arith, drop_terminal-All tasks m)

pub update_navigation-maps :
    (s : Scheduler)
    → ((update_navigation s).running_action_tasks ≡ s.running_action_tasks)
      × ((update_navigation s).paused_action_tasks ≡ s.paused_action_tasks)
      × ((update_navigation s).active_action_tasks ≡ s.active_action_tasks)
      × ((update_navigation s).tasks ≡ s.tasks)
unfolding update_navigation clear_queues
update_navigation-maps s = ground arith

-- After `updateTasks` the tasks are sorted by what they do, whatever the state of the scheduler
-- was: every entry of the running map is a task that neither is paused nor has ended, every entry
-- of the paused map one that is paused and has not ended, and no entry of the active map has ended.
-- The task objects themselves are untouched.
pub update_tasks_partition :
    (s : Scheduler)
    → ((update_tasks s).tasks ≡ s.tasks)
      × All (Runs s.tasks) (update_tasks s).running_action_tasks
      × All (Rests s.tasks) (update_tasks s).paused_action_tasks
      × All (λ e. terminal_at s.tasks e.1 ≡ false) (update_tasks s).active_action_tasks
unfolding update_tasks
update_tasks_partition s =
    let first = drop_paused s.tasks s.running_action_tasks s.paused_action_tasks in
    let second = drop_unpaused s.tasks first.1 first.0 in
    let (r, p, a, t) = update_navigation-maps (record s {
      active_action_tasks = drop_terminal s.tasks s.active_action_tasks;
      running_action_tasks = second.1;
      paused_action_tasks = second.0;
    }) in
    (
      t,
      rw r (
          drop_unpaused-Runs s.tasks first.1 first.0
            (drop_paused-Runs s.tasks s.running_action_tasks s.paused_action_tasks)),
      rw p (drop_unpaused-Rests s.tasks first.1 first.0),
      rw a (drop_terminal-All s.tasks s.active_action_tasks),
    )

-- The queue without action groups, up to the first step that stops at its goal.
unfoldable pub steps_to_stop : List QueueEvent → List QueueEvent
steps_to_stop [] = []
steps_to_stop (action_group actions ceiling ∷ q) = steps_to_stop q
steps_to_stop (navigation_step goal via stop ∷ q) =
    navigation_step goal via stop ∷ (if stop then [] else steps_to_stop q)

unfoldable pub group_ids : List QueueEvent → List String
group_ids [] = []
group_ids (action_group actions ceiling ∷ q) = action_ids actions ++ group_ids q
group_ids (navigation_step goal via stop ∷ q) = group_ids q

clear_events-ids :
    (keep blocked : Bool) (q : List QueueEvent) → (clear_events keep blocked q).0 ≡ group_ids q
unfolding clear_events group_ids
clear_events-ids keep blocked [] = refl
clear_events-ids keep blocked (action_group actions ceiling ∷ q) =
    rw (clear_events-ids keep blocked q)
clear_events-ids keep blocked (navigation_step goal via stop ∷ q) =
    clear_events-ids keep (if keep && not blocked then stop else blocked) q

clear_events-drop :
    (keep blocked : Bool) (q : List QueueEvent)
    → keep && not blocked ≡ false
    → (clear_events keep blocked q).1 ≡ []
unfolding clear_events
clear_events-drop keep blocked [] h = refl
clear_events-drop keep blocked (action_group actions ceiling ∷ q) h =
    clear_events-drop keep blocked q h
clear_events-drop keep blocked (navigation_step goal via stop ∷ q) h =
    ground (arith, clear_events-drop keep blocked q)

clear_events-keep : (q : List QueueEvent) → (clear_events true false q).1 ≡ steps_to_stop q
unfolding clear_events steps_to_stop
clear_events-keep [] = refl
clear_events-keep (action_group actions ceiling ∷ q) = clear_events-keep q
clear_events-keep (navigation_step goal via true ∷ q) =
    ground (arith, clear_events-drop true true q)
clear_events-keep (navigation_step goal via false ∷ q) = ground (arith, clear_events-keep q)

pub clear_queues_lem :
    (keep_nav : Bool) (s : Scheduler)
    → ((clear_queues keep_nav s).rcv_interrupt_queue ≡ [])
      × ((clear_queues keep_nav s).rcv_evt_queue
          ≡ (if keep_nav then steps_to_stop s.rcv_evt_queue else []))
      × ((clear_queues keep_nav s).log
          ≡ s.log
            ++ map action_forget (group_ids s.rcv_evt_queue ++ interrupt_ids s.rcv_interrupt_queue))
unfolding clear_queues
clear_queues_lem true s =
    (refl, clear_events-keep s.rcv_evt_queue, rw (clear_events-ids true false s.rcv_evt_queue))
clear_queues_lem false s = (
  refl,
  clear_events-drop false false s.rcv_evt_queue refl,
  rw (clear_events-ids false false s.rcv_evt_queue),
)
