-- ===== src/Order/ActionTask/Defs.antt =====
-- The states of an action task, their transitions and effects. A class derived from `ActionState`
-- is a constructor, `transition` and `effect` are functions by clauses, and a throw is an error.
use libvda5050pp.Common.{
  String, Bool, true, false, Option, none, List, [], ◌∷◌, ◌++◌, Result, ok, err, invalid_state,
  ◌>>=◌,
}
use libvda5050pp.Message.{Action, ActionStatus}
use libvda5050pp.Order.Dispatch.{
  Dispatch, action_start, action_pause, action_resume, action_cancel, action_forget,
  action_status_changed,
}

pub data ActionTransition : Type 0 where
  do_start is_initializing is_running do_pause is_paused do_resume is_failed : ActionTransition
  is_finished : Option String → ActionTransition
  do_cancel : ActionTransition

pub data TaskState : Type 0 where
  waiting initializing initializing_no_effect running pausing resuming paused canceling : TaskState
  failed : TaskState
  finished : Option String → TaskState

-- The template arguments of `ActionStateT`.
abbrev pub state_is_terminal : TaskState → Bool
state_is_terminal failed = true
state_is_terminal (finished r) = true
state_is_terminal _ = false

abbrev pub state_is_paused : TaskState → Bool
state_is_paused resuming = true
state_is_paused paused = true
state_is_paused _ = false

unfoldable pub state_transition : TaskState → ActionTransition → Result TaskState
state_transition waiting do_start = ok initializing
state_transition waiting do_cancel = ok canceling
state_transition initializing is_failed = ok failed
state_transition initializing (is_finished r) = ok (finished r)
state_transition initializing is_running = ok running
state_transition initializing do_cancel = ok canceling
state_transition initializing is_initializing = ok initializing_no_effect
state_transition initializing do_pause = ok pausing
state_transition initializing is_paused = ok paused
state_transition initializing_no_effect is_failed = ok failed
state_transition initializing_no_effect (is_finished r) = ok (finished r)
state_transition initializing_no_effect is_running = ok running
state_transition initializing_no_effect do_cancel = ok canceling
state_transition initializing_no_effect is_initializing = ok initializing_no_effect
state_transition initializing_no_effect is_paused = ok paused
state_transition initializing_no_effect do_pause = ok pausing
state_transition running is_failed = ok failed
state_transition running (is_finished r) = ok (finished r)
state_transition running do_pause = ok pausing
state_transition running do_cancel = ok canceling
state_transition pausing is_failed = ok failed
state_transition pausing is_paused = ok paused
state_transition pausing do_cancel = ok canceling
state_transition resuming is_failed = ok failed
state_transition resuming is_running = ok running
state_transition resuming do_cancel = ok canceling
state_transition resuming is_initializing = ok initializing_no_effect
state_transition paused is_failed = ok failed
state_transition paused do_resume = ok resuming
state_transition paused do_cancel = ok canceling
state_transition paused is_initializing = ok initializing_no_effect
state_transition paused is_running = ok running
state_transition canceling is_failed = ok failed
state_transition canceling (is_finished r) = ok (finished r)
state_transition _ _ = err invalid_state

-- What the effect of a state dispatches, in order, for the action with the id.
unfoldable pub state_effect : TaskState → String → List Dispatch
state_effect waiting id = []
state_effect initializing id =
    action_status_changed id ActionStatus.initializing none ∷ action_start id ∷ []
state_effect initializing_no_effect id = []
state_effect running id = action_status_changed id ActionStatus.running none ∷ []
state_effect pausing id = action_pause id ∷ []
state_effect resuming id = action_resume id ∷ []
state_effect paused id = action_status_changed id ActionStatus.paused none ∷ []
state_effect canceling id = action_cancel id ∷ []
state_effect failed id = action_status_changed id ActionStatus.failed none ∷ action_forget id ∷ []
state_effect (finished r) id =
    action_status_changed id ActionStatus.finished r ∷ action_forget id ∷ []

pub record ActionTask : Type 0 where
  pub state : TaskState
  pub action : Action

unfoldable pub new_task : Action → ActionTask
new_task action = record { state = waiting; action = action }

-- `ActionTask::transition`: the task with its new state, and what the effect dispatches.
unfoldable pub transition : ActionTask → ActionTransition → Result (ActionTask × List Dispatch)
transition task t = do
  state' ← state_transition task.state t
  ok (record task { state = state' }, state_effect state' task.action.action_id)

abbrev pub is_terminal : ActionTask → Bool
is_terminal task = state_is_terminal task.state

abbrev pub task_is_paused : ActionTask → Bool
task_is_paused task = state_is_paused task.state

-- The transitions that reach a task one after the other. The callers catch the exception of a
-- transition that the state refuses, and the task stays as it was.
unfoldable pub run : ActionTask → List ActionTransition → ActionTask × List Dispatch
run task [] = (task, [])
run task (t ∷ ts) = elim (transition task t) [
  | ok (task', out) ↦ let (last, rest) = run task' ts in (last, out ++ rest)
  | err e ↦ run task ts
]
