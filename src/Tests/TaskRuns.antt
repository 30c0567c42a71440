-- ===== src/Tests/TaskRuns.antt =====
-- The tasks under short sequences of transitions.
use libvda5050pp.Common.{◌≤◌, ◌≡◌, ◌⊎◌, true, none, some, List, [], ◌∷◌}
use libvda5050pp.Order.ActionTask.Defs.{
  ActionTask, ActionTransition, TaskState, run, new_task, transition, state_transition,
}
use libvda5050pp.Order.ActionTask.Log.{run_once, starts, finals, forgets}
use libvda5050pp.Message.{ActionStatus}
use libvda5050pp.Order.NavigationTask.Defs as NavigationTask
use libvda5050pp.Order.NavigationTask.Defs.{
  NavigationTask, NavigationTransition, NavigationState, transfer,
}
use libvda5050pp.Order.NavigationTask.Log.{run_arrives, count_next, reached_nodes}
use libvda5050pp.Tests.Data.{lift, node_at, edge_at}

abbrev life : List ActionTransition
life =
    ActionTransition.do_start
    ∷ ActionTransition.is_running
    ∷ ActionTransition.do_pause
    ∷ ActionTransition.is_paused
    ∷ ActionTransition.is_running
    ∷ ActionTransition.do_start
    ∷ ActionTransition.is_finished (some "up")
    ∷ ActionTransition.is_failed
    ∷ []

run_once_example :
    ((starts (run (new_task lift) life).1 ≡ [])
      ⊎ (starts (run (new_task lift) life).1 ≡ "lift" ∷ []))
    × (finals (run (new_task lift) life).1 ≡ ("lift", ActionStatus.finished, some "up") ∷ [])
    × (forgets (run (new_task lift) life).1 ≡ "lift" ∷ [])
unfolding run new_task transition state_transition
run_once_example = run_once lift life

abbrev in_state : TaskState → ActionTask
in_state s = record { state = s; action = lift }

abbrev reports : List ActionTransition
reports = ActionTransition.is_running ∷ ActionTransition.is_finished none ∷ []

abbrev way : List NavigationTransition
way =
    NavigationTransition.do_start
    ∷ NavigationTransition.do_pause
    ∷ NavigationTransition.to_seq_id 3
    ∷ NavigationTransition.to_seq_id 2
    ∷ NavigationTransition.is_failed
    ∷ []

run_arrives_example :
    (count_next
        (NavigationTask.run (NavigationTask.new_task (node_at 2 true) (edge_at 1 true)) way).1
      ≤ 1)
    × (reached_nodes
          (NavigationTask.run (NavigationTask.new_task (node_at 2 true) (edge_at 1 true)) way).1
        ≡ ("n", 2) ∷ [])
unfolding NavigationTask.run NavigationTask.new_task NavigationTask.transition transfer
run_arrives_example = run_arrives (node_at 2 true) (edge_at 1 true) way

abbrev in_nav_state : NavigationState → NavigationTask
in_nav_state s = record {
  state = s;
  goal = node_at 2 true;
  via_edge = edge_at 1 true;
  segment = none;
}

-- The AGV reports another node.
abbrev elsewhere : List NavigationTransition
elsewhere = NavigationTransition.to_seq_id 4 ∷ NavigationTransition.do_pause ∷ []
