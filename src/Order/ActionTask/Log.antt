-- ===== src/Order/ActionTask/Log.antt =====
-- What a task dispatches over its whole life.
use libvda5050pp.Common.{
  ◌≡◌, ◌∙◌, ◌⊎◌, append-nil, Option, none, String, List, [], ◌∷◌, ◌++◌, arith, ok, err, Error,
  Result-cases, if◌then◌else◌, inl, inr,
}
use libvda5050pp.Message.{Action, ActionStatus}
use libvda5050pp.Order.Dispatch.{Dispatch, action_start, action_forget, action_status_changed}
use libvda5050pp.Order.ActionTask.Defs.{
  ActionTransition, TaskState, ActionTask, state_transition, state_effect, new_task, transition,
  state_is_terminal, run, waiting, failed, finished,
}

-- The ids of the actions that a log starts, and of those that it has the handlers forget.
unfoldable pub starts : List Dispatch → List String
starts [] = []
starts (action_start id ∷ l) = id ∷ starts l
starts (_ ∷ l) = starts l

unfoldable pub forgets : List Dispatch → List String
forgets [] = []
forgets (action_forget id ∷ l) = id ∷ forgets l
forgets (_ ∷ l) = forgets l

-- The final statuses that are reported, each with the action and the result.
abbrev pub Final : Type 0
Final = String × ActionStatus × Option String

unfoldable pub finals : List Dispatch → List Final
finals [] = []
finals (action_status_changed id ActionStatus.failed r ∷ l) =
    (id, ActionStatus.failed, r) ∷ finals l
finals (action_status_changed id ActionStatus.finished r ∷ l) =
    (id, ActionStatus.finished, r) ∷ finals l
finals (_ ∷ l) = finals l

-- What is to be reported at last of an action that is in the state.
abbrev pub final_of : TaskState → String → List Final
final_of failed id = (id, ActionStatus.failed, none) ∷ []
final_of (finished r) id = (id, ActionStatus.finished, r) ∷ []
final_of _ id = []

abbrev pub forgotten : TaskState → String → List String
forgotten s id = if state_is_terminal s then id ∷ [] else []

-- Only a waiting task can still start its action, and only once.
abbrev StartsOnce : TaskState → String → List String → Type 0
StartsOnce waiting id l = (l ≡ []) ⊎ (l ≡ id ∷ [])
StartsOnce _ id l = l ≡ []

StartsOnce-nil : (s : TaskState) (id : String) → StartsOnce s id []
StartsOnce-nil s id = ground arith

step_starts :
    (s s' : TaskState) (t : ActionTransition) (id : String) (l : List Dispatch)
    → state_transition s t ≡ ok s'
    → StartsOnce s' id (starts l)
    → StartsOnce s id (starts (state_effect s' id ++ l))
unfolding state_transition state_effect starts
step_starts s s' t id l h o = ground arith

step_reports :
    (s s' : TaskState) (t : ActionTransition) (id : String) (l : List Dispatch)
    → state_transition s t ≡ ok s'
    → (final_of s id ++ finals (state_effect s' id ++ l) ≡ final_of s' id ++ finals l)
      × (forgotten s id ++ forgets (state_effect s' id ++ l) ≡ forgotten s' id ++ forgets l)
unfolding state_transition state_effect finals forgets
step_reports s s' t id l h = ground arith

-- After an accepted transition the rest of the run follows, with the effect in front.
pub run-ok :
    (task : ActionTask) (s : TaskState) (t : ActionTransition) (ts : List ActionTransition)
    → state_transition task.state t ≡ ok s
    → run task (t ∷ ts) ≡ (
      (run (record task { state = s }) ts).0,
      state_effect s task.action.action_id ++ (run (record task { state = s }) ts).1,
    )
unfolding run transition
run-ok task s t ts h = ground arith

pub run-err :
    (task : ActionTask) (e : Error) (t : ActionTransition) (ts : List ActionTransition)
    → state_transition task.state t ≡ err e
    → run task (t ∷ ts) ≡ run task ts
unfolding run transition
run-err task e t ts h = ground arith

run_starts :
    (task : ActionTask) (ts : List ActionTransition)
    → StartsOnce task.state task.action.action_id (starts (run task ts).1)
unfolding run starts
run_starts task [] = StartsOnce-nil task.state task.action.action_id
run_starts task (t ∷ ts) = elim (Result-cases (state_transition task.state t)) [
  | inr (e, refused) ↦ rw (run-err task e t ts refused) (run_starts task ts)
  | inl (s, accepted) ↦ rw (run-ok task s t ts accepted) (
      step_starts task.state s t task.action.action_id (run (record task { state = s }) ts).1
        accepted (run_starts (record task { state = s }) ts))
]

run_reports :
    (task : ActionTask) (ts : List ActionTransition)
    → (final_of task.state task.action.action_id ++ finals (run task ts).1
        ≡ final_of (run task ts).0.state task.action.action_id)
      × (forgotten task.state task.action.action_id ++ forgets (run task ts).1
          ≡ forgotten (run task ts).0.state task.action.action_id)
unfolding run finals forgets
run_reports task [] = (append-nil _, append-nil _)
run_reports task (t ∷ ts) = elim (Result-cases (state_transition task.state t)) [
  | inr (e, refused) ↦ rw (run-err task e t ts refused) (run_reports task ts)
  | inl (s, accepted) ↦ rw (run-ok task s t ts accepted) (
      let (p, q) =
        step_reports task.state s t task.action.action_id (run (record task { state = s }) ts).1
          accepted in
      let (p', q') = run_reports (record task { state = s }) ts in (p ∙ p', q ∙ q'))
]

-- Over the whole life of an action task, whatever transitions reach it in whatever order: nothing
-- or the start of its action, once, is dispatched as a start; the final statuses that are reported
-- are none before the task has ended, and then one: that the action has failed, or that it has
-- finished with the result of the task; and the handlers are made to forget the action, and no
-- other, once if the task has ended and never before.
pub run_once :
    (action : Action) (ts : List ActionTransition)
    → ((starts (run (new_task action) ts).1 ≡ [])
        ⊎ (starts (run (new_task action) ts).1 ≡ action.action_id ∷ []))
      × (finals (run (new_task action) ts).1
          ≡ final_of (run (new_task action) ts).0.state action.action_id)
      × (forgets (run (new_task action) ts).1
          ≡ forgotten (run (new_task action) ts).0.state action.action_id)
unfolding new_task
run_once action ts =
    let task : ActionTask = record { state = waiting; action = action } in
    let (p, q) = run_reports task ts in (run_starts task ts, p, q)
