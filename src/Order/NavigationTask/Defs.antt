-- ===== src/Order/NavigationTask/Defs.antt =====
-- The states of a navigation task, their transitions and effects. The goal and the edge are given
-- when the task is made, and are never null there.
use libvda5050pp.Common.{
  ℕ, Bool, true, false, Option, none, some, List, [], ◌∷◌, ◌++◌, Result, ok, err, invalid_state,
  ◌>>=◌, ◌==◌, if◌then◌else◌,
}
use libvda5050pp.Message.{Node, Edge}
use libvda5050pp.Order.Dispatch.{
  Dispatch, ControlType, navigation_next_node, navigation_upcoming_segment, navigation_control,
  new_last_node_id,
}

pub data NavigationTransition : Type 0 where
  do_start is_resumed do_pause is_paused do_resume : NavigationTransition
  to_seq_id : ℕ → NavigationTransition
  do_cancel is_failed : NavigationTransition

pub data NavigationState : Type 0 where
  waiting first_in_progress in_progress pausing paused resuming canceling failed : NavigationState
  done : NavigationState

-- The template arguments of `NavigationStateT`.
abbrev pub state_is_terminal : NavigationState → Bool
state_is_terminal failed = true
state_is_terminal done = true
state_is_terminal _ = false

abbrev pub state_is_failed : NavigationState → Bool
state_is_failed failed = true
state_is_failed _ = false

abbrev pub state_is_paused : NavigationState → Bool
state_is_paused paused = true
state_is_paused resuming = true
state_is_paused _ = false

-- The case `k_to_seq_id`: done at the goal, else it falls through to the throw.
abbrev reached : ℕ → ℕ → Result NavigationState
reached seq_id goal = if seq_id == goal then ok done else err invalid_state

-- `transfer`, with the sequence id of the goal.
unfoldable pub transfer : NavigationState → NavigationTransition → ℕ → Result NavigationState
transfer waiting do_cancel goal = ok canceling
transfer waiting do_start goal = ok first_in_progress
transfer waiting is_failed goal = ok failed
transfer first_in_progress do_cancel goal = ok canceling
transfer first_in_progress do_pause goal = ok pausing
transfer first_in_progress is_failed goal = ok failed
transfer first_in_progress is_paused goal = ok paused
transfer first_in_progress (to_seq_id seq_id) goal = reached seq_id goal
transfer in_progress do_cancel goal = ok canceling
transfer in_progress do_pause goal = ok pausing
transfer in_progress is_failed goal = ok failed
transfer in_progress is_paused goal = ok paused
transfer in_progress (to_seq_id seq_id) goal = reached seq_id goal
transfer pausing do_cancel goal = ok canceling
transfer pausing is_paused goal = ok paused
transfer pausing is_failed goal = ok failed
transfer pausing (to_seq_id seq_id) goal = reached seq_id goal
transfer paused do_cancel goal = ok canceling
transfer paused do_resume goal = ok resuming
transfer paused is_resumed goal = ok in_progress
transfer paused is_failed goal = ok failed
transfer resuming do_cancel goal = ok canceling
transfer resuming is_resumed goal = ok in_progress
transfer resuming is_failed goal = ok failed
transfer resuming is_paused goal = ok paused
transfer canceling is_failed goal = ok failed
transfer canceling (to_seq_id seq_id) goal = reached seq_id goal
transfer _ _ goal = err invalid_state

pub record NavigationTask : Type 0 where
  pub state : NavigationState
  pub goal : Node
  pub via_edge : Edge
  pub segment : Option (ℕ × ℕ)

unfoldable pub new_task : Node → Edge → NavigationTask
new_task goal via_edge = record {
  state = waiting;
  goal = goal;
  via_edge = via_edge;
  segment = none;
}

unfoldable pub set_segment : NavigationTask → ℕ × ℕ → NavigationTask
set_segment task segment = record task { segment = some segment }

abbrev upcoming : Option (ℕ × ℕ) → List Dispatch
upcoming none = []
upcoming (some (begin_seq, end_seq)) = navigation_upcoming_segment begin_seq end_seq ∷ []

unfoldable pub state_effect : NavigationState → NavigationTask → List Dispatch
state_effect first_in_progress task =
    navigation_next_node task.goal task.via_edge ∷ upcoming task.segment
state_effect pausing task = navigation_control ControlType.pause ∷ []
state_effect resuming task = navigation_control ControlType.resume ∷ []
state_effect canceling task = navigation_control ControlType.cancel ∷ []
state_effect done task = new_last_node_id task.goal.node_id task.goal.sequence_id ∷ []
state_effect _ task = []

-- `NavigationTask::transition`: the task with its new state, and what the effect dispatches.
unfoldable pub transition :
    NavigationTask → NavigationTransition → Result (NavigationTask × List Dispatch)
transition task t = do
  state' ← transfer task.state t task.goal.sequence_id
  ok (record task { state = state' }, state_effect state' task)

abbrev pub is_terminal : NavigationTask → Bool
is_terminal task = state_is_terminal task.state

abbrev pub task_is_failed : NavigationTask → Bool
task_is_failed task = state_is_failed task.state

abbrev pub task_is_paused : NavigationTask → Bool
task_is_paused task = state_is_paused task.state

-- The transitions that reach a task one after the other; a refused one leaves it as it was.
unfoldable pub run : NavigationTask → List NavigationTransition → NavigationTask × List Dispatch
run task [] = (task, [])
run task (t ∷ ts) = elim (transition task t) [
  | ok (task', out) ↦ let (last, rest) = run task' ts in (last, out ++ rest)
  | err e ↦ run task ts
]
