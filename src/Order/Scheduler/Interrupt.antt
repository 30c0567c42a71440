-- ===== src/Order/Scheduler/Interrupt.antt =====
-- `doInterrupt` and `updateFetchNextInterrupt`: instant actions take precedence.
use libvda5050pp.Common.{
  ℕ, String, Bool, false, not, ◌&&◌, ◌||◌, none, some, List, [], ◌∷◌, ◌++◌, length, if◌then◌else◌,
}
use libvda5050pp.Common.IdMap.{insert_or_assign}
use libvda5050pp.Message.{Action}
use libvda5050pp.Order.ActionTask.Defs.{ActionTask, new_task, do_start, do_cancel}
use libvda5050pp.Order.NavigationTask.Defs.{task_is_paused, do_pause}
use libvda5050pp.Order.Scheduler.State.{
  Scheduler, M, returns, ◌>>◌, modify, transition_at, navigate, has_navigation, is_none, is_hard,
  hard_at,
}

-- HARD on either side: the active task is canceled.
unfoldable pub cancel_hard : Bool → List (String × ℕ) → M (Unit {0})
cancel_hard hard [] s = returns tt s
cancel_hard hard ((id, a) ∷ m) s =
    if hard || hard_at s.tasks a
    then (transition_at a do_cancel >> cancel_hard hard m) s
    else cancel_hard hard m s

unfoldable pub do_interrupt : M (Unit {0})
do_interrupt s = elim s.rcv_interrupt_queue [
  | [] ↦ returns tt s
  | g ∷ q ↦
      ((λ r.
            if not (is_none g.blocking_type_ceiling) && has_navigation r
            then navigate do_pause r
            else returns tt r)
          >> cancel_hard (is_hard g.blocking_type_ceiling) s.active_action_tasks)
        s
]

-- The navigation, if there is one, is paused.
abbrev pub navigation_paused : Scheduler → Bool
navigation_paused s = elim s.navigation_task [ none ↦ false | some t ↦ task_is_paused t ]

unfoldable pub any_hard : Bool → List ActionTask → List (String × ℕ) → Bool
any_hard hard tasks [] = false
any_hard hard tasks ((id, a) ∷ m) = (hard || hard_at tasks a) || any_hard hard tasks m

unfoldable pub start_instant_action : Action → M (Unit {0})
start_instant_action action s =
    let address = length s.tasks in
    transition_at address do_start (record s {
      tasks = s.tasks ++ new_task action ∷ [];
      active_action_tasks = insert_or_assign action.action_id address s.active_action_tasks;
      running_action_tasks = insert_or_assign action.action_id address s.running_action_tasks;
      nav_interrupting_action_tasks =
          if is_none action.blocking_type
          then s.nav_interrupting_action_tasks
          else insert_or_assign action.action_id address s.nav_interrupting_action_tasks;
    })

unfoldable pub start_instant_actions : List Action → M (Unit {0})
start_instant_actions [] s = returns tt s
start_instant_actions (a ∷ as') s = (start_instant_action a >> start_instant_actions as') s

unfoldable pub update_fetch_next_interrupt : M (Unit {0})
update_fetch_next_interrupt s = elim s.rcv_interrupt_queue [
  | [] ↦ returns tt s
  | g ∷ q ↦
      if not (is_none g.blocking_type_ceiling) && (has_navigation s && not (navigation_paused s))
      then returns tt s
      else (if any_hard (is_hard g.blocking_type_ceiling) s.tasks s.active_action_tasks
          then returns tt s
          else (start_instant_actions g.instant_actions
                >> modify (λ r. record r { rcv_interrupt_queue = q }))
              (record s { current_action_blocking_type = g.blocking_type_ceiling }))
]
