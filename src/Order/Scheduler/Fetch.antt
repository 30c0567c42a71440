-- ===== src/Order/Scheduler/Fetch.antt =====
-- `updateFetchNext` and `doPatchSegment`: what the scheduler takes from its event queue.
use libvda5050pp.Common.{
  ℕ, ◌+◌, Bool, true, false, not, ◌&&◌, Option, none, some, List, [], ◌∷◌, ◌++◌, length, is_empty,
  ltb, ◌==◌, if◌then◌else◌, u32,
}
use libvda5050pp.Common.IdMap.{insert_or_assign}
use libvda5050pp.Message.{Action, Node, Edge, BlockingType}
use libvda5050pp.Order.Dispatch.{navigation_upcoming_segment}
use libvda5050pp.Order.ActionTask.Defs.{new_task, do_start}
use libvda5050pp.Order.NavigationTask.Defs.{
  new_task as new_navigation_task, set_segment, do_start as nav_start,
}
use libvda5050pp.Order.Scheduler.State.{
  Scheduler, QueueEvent, navigation_step, action_group, M, returns, throws, diverged, ◌>>◌, modify,
  return, transition_at, navigate, has_navigation, is_none,
}

-- A new task for an action, in the maps of the active and of the running tasks, is started.
unfoldable pub start_action : Action → M (Unit {0})
start_action action s =
    let address = length s.tasks in
    transition_at address do_start (record s {
      tasks = s.tasks ++ new_task action ∷ [];
      active_action_tasks = insert_or_assign action.action_id address s.active_action_tasks;
      running_action_tasks = insert_or_assign action.action_id address s.running_action_tasks;
    })

unfoldable pub start_actions : List Action → M (Unit {0})
start_actions [] s = returns tt s
start_actions (a ∷ as') s = (start_action a >> start_actions as') s

-- The last goal that is reached without a stop, as far as the queue tells.
unfoldable pub prefetch : List QueueEvent → ℕ → ℕ
prefetch [] last = last
prefetch (action_group actions ceiling ∷ q) last = prefetch q last
prefetch (navigation_step goal via stop ∷ q) last =
    if stop then goal.sequence_id else prefetch q goal.sequence_id

unfoldable pub patch : Scheduler → ℕ × ℕ → Scheduler
patch s (begin_seq, old_segment_last) =
    let new_last = prefetch s.rcv_evt_queue old_segment_last in
    let s' = record s { current_segment = some (begin_seq, new_last) } in
    if new_last == old_segment_last then s' else record s' {
      log = s.log ++ navigation_upcoming_segment (u32 (old_segment_last + 1)) new_last ∷ [];
    }

unfoldable pub do_patch_segment : Scheduler → Scheduler
do_patch_segment s =
    if not (has_navigation s)
    then s
    else elim s.current_segment [ none ↦ s | some segment ↦ patch s segment ]

-- The event is at the head of the queue, and `q` is what follows. `true` asks for the next event.
unfoldable pub fetch_group : List Action → BlockingType → List QueueEvent → M Bool
fetch_group actions ceiling q s =
    if not (is_empty s.active_action_tasks)
    then returns false s
    else (if has_navigation s && not (is_none ceiling)
        then returns false s
        else (start_actions actions
              >> (modify (λ r. record r { rcv_evt_queue = q }) >> return true))
            (record s { current_segment = none; current_action_blocking_type = ceiling }))

abbrev pub covers : Option (ℕ × ℕ) → ℕ → Bool
covers none seq = false
covers (some (first, last)) seq = not (ltb last seq)

unfoldable pub fetch_step : Node → Edge → Bool → List QueueEvent → M Bool
fetch_step goal via stop q s =
    if has_navigation s
    then returns false (do_patch_segment s)
    else (if not (is_empty s.nav_interrupting_action_tasks)
        then returns false s
        else (if not (is_empty s.active_action_tasks)
              && not (is_none s.current_action_blocking_type)
            then returns false s
            else (if covers s.current_segment goal.sequence_id
                then (navigate nav_start >> return true) (record s {
                  navigation_task = some (new_navigation_task goal via);
                  rcv_evt_queue = q;
                })
                else (let segment : ℕ × ℕ = (
                  goal.sequence_id,
                  prefetch (navigation_step goal via stop ∷ q) goal.sequence_id,
                ) in
                    (navigate nav_start
                        >> (modify (λ r. record r { rcv_evt_queue = q }) >> return true))
                      (record s {
                        navigation_task = some (set_segment (new_navigation_task goal via) segment);
                        current_segment = some segment;
                      })))))

unfoldable pub fetch_one : QueueEvent → List QueueEvent → M Bool
unfolding fetch_group fetch_step
fetch_one (action_group actions ceiling) q = fetch_group actions ceiling q
fetch_one (navigation_step goal via stop) q = fetch_step goal via stop q

-- The recursion ends with the queue.
unfoldable pub fetch_all : List QueueEvent → M (Unit {0})
fetch_all [] s = returns tt s
fetch_all (e ∷ q) s = elim (fetch_one e q s) [
  | returns more s' ↦ let rest = fetch_all q s' in if more then rest else returns tt s'
  | throws x s' ↦ throws x s'
  | diverged ↦ diverged
]

unfoldable pub update_fetch_next : M (Unit {0})
update_fetch_next s = fetch_all s.rcv_evt_queue s
