-- ===== src/Order/Scheduler/Starts.antt =====
-- Starting the actions of a group, and which active actions block.
use libvda5050pp.Common.{
  ℕ, zero, suc, All, String, ◌≡◌, refl, true, some, List, [], ◌∷◌, ◌++◌, arith, length, is_empty,
  get_elem?, set,
}
use libvda5050pp.Common.IdMap.{insert_or_assign, insert_or_assign-All}
use libvda5050pp.Message.{Action, none_blocking}
use libvda5050pp.Order.ActionTask.Defs.{
  ActionTask, transition as action_transition, state_transition, new_task, do_start, state_effect,
  initializing,
}
use libvda5050pp.Order.Scheduler.State.{Scheduler, returns, transition_at}
use libvda5050pp.Order.Scheduler.Fetch.{start_action, start_actions}

-- The task of the entry is one of an action that does not block.
abbrev pub Unblocking : List ActionTask → String × ℕ → Type 0
Unblocking tasks e =
    (t : ActionTask) × (get_elem? tasks e.1 ≡ some t) × (t.action.blocking_type ≡ none_blocking)

abbrev pub AllUnblocking : Scheduler → Type 0
AllUnblocking s = All (Unblocking s.tasks) s.active_action_tasks

get_elem?-last : {A : Type 0} (xs : List A) (x : A) → get_elem? (xs ++ x ∷ []) (length xs) ≡ some x
get_elem?-last [] x = refl
get_elem?-last (y ∷ xs) x = get_elem?-last xs x

get_elem?-grown :
    {A : Type 0} (xs : List A) (x y : A) (i : ℕ)
    → get_elem? xs i ≡ some y
    → get_elem? (xs ++ x ∷ []) i ≡ some y
get_elem?-grown [] x y i h = ground arith
get_elem?-grown (z ∷ xs) x y zero h = h
get_elem?-grown (z ∷ xs) x y (suc i) h = get_elem?-grown xs x y i h

set-Unblocking :
    (tasks : List ActionTask) (i j : ℕ) (id : String) (t : ActionTask)
    → t.action.blocking_type ≡ none_blocking
    → Unblocking tasks (id, j)
    → Unblocking (set tasks i t) (id, j)
set-Unblocking [] i j id t b u = u
set-Unblocking (w ∷ tasks) zero zero id t b u = (t, refl, b)
set-Unblocking (w ∷ tasks) zero (suc j) id t b u = u
set-Unblocking (w ∷ tasks) (suc i) zero id t b u = u
set-Unblocking (w ∷ tasks) (suc i) (suc j) id t b u = set-Unblocking tasks i j id t b u

entries_mapped :
    {P Q : String × ℕ → Type 0} (f : (e : String × ℕ) → P e → Q e) (m : List (String × ℕ))
    → All P m
    → All Q m
entries_mapped f [] h = tt
entries_mapped f (e ∷ m) h = (f e h.0, entries_mapped f m h.1)

none_left :
    (m : List (String × ℕ)) (tasks : List ActionTask) → is_empty m ≡ true → All (Unblocking tasks) m
none_left [] tasks h = tt
none_left (e ∷ m) tasks h = absurd (ground arith)

pub all_of_empty : (s : Scheduler) → is_empty s.active_action_tasks ≡ true → AllUnblocking s
all_of_empty s h = none_left s.active_action_tasks s.tasks h

-- What starting actions leaves alone.
pub record Keeps (s s' : Scheduler) : Type 0 where
  pub navigation : s'.navigation_task ≡ s.navigation_task
  pub blocking : s'.current_action_blocking_type ≡ s.current_action_blocking_type

start_new :
    (a : Action) (address : ℕ) (s : Scheduler)
    → get_elem? s.tasks address ≡ some (new_task a)
    → (s' : Scheduler) × (transition_at address do_start s ≡ returns tt s')
      × Keeps s s'
      × (a.blocking_type ≡ none_blocking → AllUnblocking s → AllUnblocking s')
unfolding transition_at action_transition state_transition new_task state_effect
start_new a address s h = (
  record s {
    tasks = set s.tasks address (record { state = initializing; action = a });
    log = s.log ++ state_effect initializing a.action_id;
  },
  ground arith,
  record { navigation = refl; blocking = refl },
  (λ b u.
      entries_mapped
        (λ e w.
          set-Unblocking s.tasks address e.1 e.0 (record { state = initializing; action = a }) b w)
        s.active_action_tasks u),
)

new_unblocking :
    (a : Action)
    → a.blocking_type ≡ none_blocking
    → (new_task a).action.blocking_type ≡ none_blocking
unfolding new_task
new_unblocking a h = h

start_action_returns :
    (a : Action) (s : Scheduler)
    → (s' : Scheduler) × (start_action a s ≡ returns tt s')
      × Keeps s s'
      × (a.blocking_type ≡ none_blocking → AllUnblocking s → AllUnblocking s')
unfolding start_action
start_action_returns a s =
    let (s', first, k, keeps) =
      start_new a (length s.tasks)
        (record s {
          tasks = s.tasks ++ new_task a ∷ [];
          active_action_tasks = insert_or_assign a.action_id (length s.tasks) s.active_action_tasks;
          running_action_tasks =
              insert_or_assign a.action_id (length s.tasks) s.running_action_tasks;
        })
        (get_elem?-last s.tasks (new_task a)) in
    (
      s',
      first,
      record { navigation = k.navigation; blocking = k.blocking },
      (λ b u. keeps b (
          insert_or_assign-All (Unblocking (s.tasks ++ new_task a ∷ [])) a.action_id
            (length s.tasks) s.active_action_tasks
            (new_task a, get_elem?-last s.tasks (new_task a), new_unblocking a b)
            (entries_mapped (λ e w. (w.0, get_elem?-grown s.tasks (new_task a) w.0 e.1 w.1, w.2))
              s.active_action_tasks u))),
    )

pub start_actions_returns :
    (as' : List Action) (s : Scheduler)
    → (s' : Scheduler) × (start_actions as' s ≡ returns tt s')
      × Keeps s s'
      × (All (λ (a : Action). a.blocking_type ≡ none_blocking) as'
          → AllUnblocking s
          → AllUnblocking s')
unfolding start_actions
start_actions_returns [] s = (s, refl, record { navigation = refl; blocking = refl }, λ b u. u)
start_actions_returns (a ∷ as') s =
    let (s₁, first, k, u) = start_action_returns a s in
    let (s₂, rest, l, v) = start_actions_returns as' s₁ in
    (
      s₂,
      ground arith,
      record { navigation = ground arith; blocking = ground arith },
      (λ b w. v b.1 (u b.0 w)),
    )
