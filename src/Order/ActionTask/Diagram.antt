-- ===== src/Order/ActionTask/Diagram.antt =====
-- The diagram of an action's states: what can still be reached from where.
use libvda5050pp.Common.{
  ◌≡◌, refl, ◌⊎◌, inl, inr, true, List, [], ◌∷◌, arith, ok, err, invalid_state, Result-cases,
}
use libvda5050pp.Order.ActionTask.Defs.{
  ActionTransition, TaskState, ActionTask, state_transition, is_terminal, state_is_terminal, run,
  canceling,
}
use libvda5050pp.Order.ActionTask.Log.{run-ok, run-err}

terminal_refuses :
    (s : TaskState) (t : ActionTransition)
    → state_is_terminal s ≡ true
    → state_transition s t ≡ err invalid_state
unfolding state_transition
terminal_refuses s t h = ground arith

-- A task that has ended refuses every transition, dispatches nothing more and keeps its state.
pub run_terminal :
    (task : ActionTask) (ts : List ActionTransition)
    → is_terminal task ≡ true
    → run task ts ≡ (task, [])
unfolding run
run_terminal task [] h = refl
run_terminal task (t ∷ ts) h =
    rw (run-err task invalid_state t ts (terminal_refuses task.state t h)) (run_terminal task ts h)

-- A state in which an action that was told to cancel can be.
abbrev pub IsEnding : TaskState → Type 0
IsEnding s = (s ≡ canceling) ⊎ (state_is_terminal s ≡ true)

ending_step :
    (s s' : TaskState) (t : ActionTransition)
    → IsEnding s
    → state_transition s t ≡ ok s'
    → state_is_terminal s' ≡ true
unfolding state_transition
ending_step s s' t e h = ground arith

-- A task that was told to cancel is canceling or has ended, whatever follows: it never runs again.
pub run-IsEnding :
    (task : ActionTask) (ts : List ActionTransition)
    → IsEnding task.state
    → IsEnding (run task ts).0.state
unfolding run
run-IsEnding task [] e = e
run-IsEnding task (t ∷ ts) e = elim (Result-cases (state_transition task.state t)) [
  | inr (x, refused) ↦ rw (run-err task x t ts refused) (run-IsEnding task ts e)
  | inl (s, accepted) ↦
      rw (run-ok task s t ts accepted)
        (run-IsEnding (record task { state = s }) ts (inr (ending_step task.state s t e accepted)))
]
