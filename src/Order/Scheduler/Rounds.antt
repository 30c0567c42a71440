-- ===== src/Order/Scheduler/Rounds.antt =====
-- The rounds of the recursion of `Scheduler::update`.
use libvda5050pp.Common.{
  ℕ, suc, ◌≡◌, ◌≢◌, refl, ◌⊎◌, inl, inr, String, true, false, List, [], ◌∷◌, arith, Error,
}
use libvda5050pp.Message.{Action}
use libvda5050pp.Order.ActionTask.Defs.{ActionTransition}
use libvda5050pp.Order.NavigationTask.Defs.{NavigationTransition}
use libvda5050pp.Order.Scheduler.State.{
  Scheduler, SchedulerStateType, active, QueueEvent, navigation_step, action_group, Outcome,
  returns, throws, diverged, transition_at, transition_all, navigate,
}
use libvda5050pp.Order.Scheduler.Tasks.{update_tasks_interrupt_mapping}
use libvda5050pp.Order.Scheduler.Fetch.{
  start_action, start_actions, fetch_one, fetch_all, update_fetch_next,
}
use libvda5050pp.Order.Scheduler.Interrupt.{
  start_instant_action, start_instant_actions, update_fetch_next_interrupt,
}
use libvda5050pp.Order.Scheduler.Machine.{
  state_update, idle_update, active_update, canceling_update, resuming_update, pausing_update,
  interrupting_update, update_from, update,
}

pub transition_at-converges :
    (a : ℕ) (t : ActionTransition) (s : Scheduler) → transition_at a t s ≢ diverged
unfolding transition_at
transition_at-converges a t s = ground arith

pub navigate-converges : (t : NavigationTransition) (s : Scheduler) → navigate t s ≢ diverged
unfolding navigate
navigate-converges t s = ground arith

pub transition_all-converges :
    (m : List (String × ℕ)) (t : ActionTransition) (s : Scheduler) → transition_all m t s ≢ diverged
unfolding transition_all
transition_all-converges [] t s = ground arith
transition_all-converges ((id, a) ∷ m) t s =
    grind (arith, transition_at-converges, transition_all-converges m t)

mapping-converges : (s : Scheduler) → update_tasks_interrupt_mapping s ≢ diverged
unfolding update_tasks_interrupt_mapping
mapping-converges s = grind (arith, navigate-converges)

start_actions-converges : (as' : List Action) (s : Scheduler) → start_actions as' s ≢ diverged
unfolding start_actions start_action
start_actions-converges [] s = ground arith
start_actions-converges (a ∷ as') s =
    grind (arith, transition_at-converges, start_actions-converges as')

fetch_one-converges :
    (e : QueueEvent) (q : List QueueEvent) (s : Scheduler) → fetch_one e q s ≢ diverged
unfolding fetch_one
fetch_one-converges (action_group actions ceiling) q s =
    grind (arith, start_actions-converges actions)
fetch_one-converges (navigation_step goal via stop) q s = grind (arith, navigate-converges)

fetch_all-converges : (q : List QueueEvent) (s : Scheduler) → fetch_all q s ≢ diverged
unfolding fetch_all
fetch_all-converges [] s = ground arith
fetch_all-converges (e ∷ q) s = grind (arith, fetch_one-converges e q, fetch_all-converges q)

fetch-converges : (s : Scheduler) → update_fetch_next s ≢ diverged
unfolding update_fetch_next
fetch-converges s = fetch_all-converges s.rcv_evt_queue s

start_instant-converges :
    (as' : List Action) (s : Scheduler) → start_instant_actions as' s ≢ diverged
unfolding start_instant_actions start_instant_action
start_instant-converges [] s = ground arith
start_instant-converges (a ∷ as') s =
    grind (arith, transition_at-converges, start_instant-converges as')

fetch_interrupt-converges : (s : Scheduler) → update_fetch_next_interrupt s ≢ diverged
unfolding update_fetch_next_interrupt
fetch_interrupt-converges s = grind (arith, start_instant-converges)

active_update-converges : (s : Scheduler) → active_update s ≢ diverged
unfolding active_update
active_update-converges s = grind (arith, mapping-converges, fetch-converges)

-- An update neither diverges nor, but from the resuming state, asks for another; from there it asks
-- only in the active state.
state_update-converges : (t : SchedulerStateType) (s : Scheduler) → state_update t s ≢ diverged
unfolding state_update idle_update canceling_update resuming_update pausing_update
    interrupting_update
state_update-converges active s = active_update-converges s
state_update-converges _ s =
    grind (arith, mapping-converges, fetch-converges, fetch_interrupt-converges)

active_update-stops : (s s' : Scheduler) → active_update s ≢ returns true s'
unfolding active_update
active_update-stops s s' = ground arith

state_update-again :
    (t : SchedulerStateType) (s s' : Scheduler)
    → state_update t s ≡ returns true s'
    → s'.state ≡ active
unfolding state_update idle_update canceling_update resuming_update pausing_update
    interrupting_update
state_update-again t s s' h = ground (arith, active_update-stops s s')

pub Outcome-cases :
    {A : Type 0} (o : Outcome A)
    → ((a : A) × (s : Scheduler) × (o ≡ returns a s))
      ⊎ (((e : Error) × (s : Scheduler) × (o ≡ throws e s)) ⊎ (o ≡ diverged))
Outcome-cases (returns a s) = inl (a, s, refl)
Outcome-cases (throws e s) = inr (inl (e, s, refl))
Outcome-cases diverged = inr (inr refl)

active_stops :
    (t : SchedulerStateType) (s s' : Scheduler) → t ≡ active → state_update t s ≢ returns true s'
unfolding state_update
active_stops active s s' h = active_update-stops s s'
active_stops _ s s' h = ground arith

last_round :
    (n : ℕ) (s : Scheduler)
    → s.state ≡ active
    → (update_from (suc n) s ≡ update_from 1 s) × (update_from 1 s ≢ diverged)
unfolding update_from
last_round n s h = elim (Outcome-cases (state_update s.state s)) [
  | inl (true, s', e) ↦ absurd (active_stops s.state s s' h e)
  | inl (false, s', e) ↦ (ground arith, ground arith)
  | inr (inl (x, s', e)) ↦ (ground arith, ground arith)
  | inr (inr e) ↦ absurd (state_update-converges s.state s e)
]

-- Every recursion with at least two rounds allowed gives the same result as `update`, which never
-- runs out of rounds: `Scheduler::update` terminates.
pub update_rounds :
    (n : ℕ) (s : Scheduler) → (update_from (suc (suc n)) s ≡ update s) × (update s ≢ diverged)
unfolding update_from
update_rounds n s = elim (Outcome-cases (state_update s.state s)) [
  | inl (true, s', e) ↦
      let (same, ends) = last_round n s' (state_update-again s.state s s' e) in
      (ground arith, ground arith)
  | inl (false, s', e) ↦ (ground arith, ground arith)
  | inr (inl (x, s', e)) ↦ (ground arith, ground arith)
  | inr (inr e) ↦ absurd (state_update-converges s.state s e)
]
