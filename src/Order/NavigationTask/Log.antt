-- ===== src/Order/NavigationTask/Log.antt =====
-- What a navigation task dispatches over its whole life, and when it is done.
use libvda5050pp.Common.{
  ◌≢◌, ℕ, suc, ◌+◌, ◌≤◌, ◌≡◌, refl, sym, append-nil, Bool-cases, inl, inr, String, Bool, true,
  false, none, List, [], ◌∷◌, ◌++◌, arith, All, ok, err, Error, invalid_state, Result-cases, ◌==◌,
}
use libvda5050pp.Message.{Node, Edge}
use libvda5050pp.Order.Dispatch.{Dispatch, navigation_next_node, new_last_node_id}
use libvda5050pp.Order.NavigationTask.Defs.{
  NavigationTransition, NavigationState, NavigationTask, transfer, state_effect, new_task,
  transition, is_terminal, state_is_terminal, run, waiting, done, to_seq_id,
}

-- The reached nodes that a log reports, oldest first.
unfoldable pub reached_nodes : List Dispatch → List (String × ℕ)
reached_nodes [] = []
reached_nodes (new_last_node_id id seq ∷ l) = (id, seq) ∷ reached_nodes l
reached_nodes (_ ∷ l) = reached_nodes l

-- How often the log sends the AGV to a node.
unfoldable pub count_next : List Dispatch → ℕ
count_next [] = 0
count_next (navigation_next_node n e ∷ l) = suc (count_next l)
count_next (_ ∷ l) = count_next l

abbrev in_waiting : NavigationState → ℕ
in_waiting waiting = 1
in_waiting _ = 0

-- The report that stands for a state: the goal once it is reached, and nothing before.
abbrev pub arrival : NavigationState → Node → List (String × ℕ)
arrival done goal = (goal.node_id, goal.sequence_id) ∷ []
arrival _ goal = []

run-ok :
    (task : NavigationTask) (s : NavigationState) (t : NavigationTransition)
    (ts : List NavigationTransition)
    → transfer task.state t task.goal.sequence_id ≡ ok s
    → run task (t ∷ ts) ≡ (
      (run (record task { state = s }) ts).0,
      state_effect s task ++ (run (record task { state = s }) ts).1,
    )
unfolding run transition
run-ok task s t ts h = ground arith

run-err :
    (task : NavigationTask) (e : Error) (t : NavigationTransition) (ts : List NavigationTransition)
    → transfer task.state t task.goal.sequence_id ≡ err e
    → run task (t ∷ ts) ≡ run task ts
unfolding run transition
run-err task e t ts h = ground arith

terminal_refuses :
    (s : NavigationState) (t : NavigationTransition) (goal : ℕ)
    → state_is_terminal s ≡ true
    → transfer s t goal ≡ err invalid_state
unfolding transfer
terminal_refuses s t goal h = ground arith

-- A navigation task that has ended refuses every transition and dispatches nothing more.
pub run_ended :
    (task : NavigationTask) (ts : List NavigationTransition)
    → is_terminal task ≡ true
    → run task ts ≡ (task, [])
unfolding run
run_ended task [] h = refl
run_ended task (t ∷ ts) h =
    rw (run-err task invalid_state t ts (terminal_refuses task.state t task.goal.sequence_id h))
      (run_ended task ts h)

effect_reached :
    (s : NavigationState) (task : NavigationTask) (l : List Dispatch)
    → reached_nodes (state_effect s task ++ l) ≡ arrival s task.goal ++ reached_nodes l
unfolding state_effect reached_nodes
effect_reached s task l = ground arith

effect_next :
    (s s' : NavigationState) (t : NavigationTransition) (task : NavigationTask) (l : List Dispatch)
    → transfer s t task.goal.sequence_id ≡ ok s'
    → count_next (state_effect s' task ++ l) + in_waiting s' ≤ count_next l + in_waiting s
unfolding transfer state_effect count_next
effect_next s s' t task l h = ground arith

run-goal :
    (task : NavigationTask) (ts : List NavigationTransition) → (run task ts).0.goal ≡ task.goal
unfolding run
run-goal task [] = refl
run-goal task (t ∷ ts) = elim (Result-cases (transfer task.state t task.goal.sequence_id)) [
  | inr (e, refused) ↦ rw (run-err task e t ts refused) (run-goal task ts)
  | inl (s, accepted) ↦ rw (run-ok task s t ts accepted) (run-goal (record task { state = s }) ts)
]

ended_reached :
    (task : NavigationTask) (s : NavigationState) (ts : List NavigationTransition)
    → state_is_terminal s ≡ true
    → arrival s task.goal ++ reached_nodes (run (record task { state = s }) ts).1
      ≡ arrival (run (record task { state = s }) ts).0.state task.goal
unfolding reached_nodes
ended_reached task s ts h =
    rw (run_ended (record task { state = s }) ts h) (append-nil (arrival s task.goal))

going_arrival :
    (s : NavigationState) (goal : Node) → state_is_terminal s ≡ false → arrival s goal ≡ []
going_arrival s goal h = ground arith

run_reached :
    (task : NavigationTask) (ts : List NavigationTransition)
    → is_terminal task ≡ false
    → reached_nodes (run task ts).1 ≡ arrival (run task ts).0.state task.goal
unfolding run reached_nodes
run_reached task [] h = sym (going_arrival task.state task.goal h)
run_reached task (t ∷ ts) h = elim (Result-cases (transfer task.state t task.goal.sequence_id)) [
  | inr (e, refused) ↦ rw (run-err task e t ts refused) (run_reached task ts h)
  | inl (s, accepted) ↦ rw (run-ok task s t ts accepted) (
      rw (effect_reached s task (run (record task { state = s }) ts).1)
        (elim (Bool-cases (state_is_terminal s)) [
          | inl ended ↦ ended_reached task s ts ended
          | inr going ↦
              rw (going_arrival s task.goal going)
                (run_reached (record task { state = s }) ts going)
        ]))
]

run_next :
    (task : NavigationTask) (ts : List NavigationTransition)
    → count_next (run task ts).1 + in_waiting (run task ts).0.state ≤ in_waiting task.state
unfolding run count_next
run_next task [] = omega arith
run_next task (t ∷ ts) = elim (Result-cases (transfer task.state t task.goal.sequence_id)) [
  | inr (e, refused) ↦ rw (run-err task e t ts refused) (run_next task ts)
  | inl (s, accepted) ↦ rw (run-ok task s t ts accepted) (
      omega (
        arith,
        effect_next task.state s t task (run (record task { state = s }) ts).1 accepted,
        run_next (record task { state = s }) ts,
      ))
]

-- Over the whole life of a navigation task, whatever transitions reach it: the AGV is sent off at
-- most once, and exactly the goal node is reported as reached, once, if the task is done, and
-- nothing is reported otherwise.
pub run_arrives :
    (goal : Node) (via_edge : Edge) (ts : List NavigationTransition)
    → (count_next (run (new_task goal via_edge) ts).1 ≤ 1)
      × (reached_nodes (run (new_task goal via_edge) ts).1
          ≡ arrival (run (new_task goal via_edge) ts).0.state goal)
unfolding new_task
run_arrives goal via_edge ts =
    let task : NavigationTask = record {
      state = waiting;
      goal = goal;
      via_edge = via_edge;
      segment = none;
    } in
    (omega (arith, run_next task ts), run_reached task ts refl)

abbrev pub is_to_goal : ℕ → NavigationTransition → Bool
is_to_goal goal (to_seq_id seq_id) = seq_id == goal
is_to_goal goal _ = false

done_step :
    (s : NavigationState) (t : NavigationTransition) (goal : ℕ)
    → transfer s t goal ≡ ok done
    → is_to_goal goal t ≡ true
unfolding transfer
done_step s t goal h = ground arith

run_done :
    (task : NavigationTask) (ts : List NavigationTransition)
    → All (λ t. is_to_goal task.goal.sequence_id t ≡ false) ts
    → (run task ts).0.state ≡ done
    → task.state ≡ done
unfolding run
run_done task [] a h = h
run_done task (t ∷ ts) a h = elim (Result-cases (transfer task.state t task.goal.sequence_id)) [
  | inr (e, refused) ↦
      let same : (run task ts).0.state ≡ done = rw (run-err task e t ts refused) at h in
      run_done task ts a.1 same
  | inl (s, accepted) ↦
      let later : (run (record task { state = s }) ts).0.state ≡ done =
        rw (run-ok task s t ts accepted) at h in
      let at_s : s ≡ done = run_done (record task { state = s }) ts a.1 later in
      ground (arith, done_step task.state t task.goal.sequence_id)
]

-- A task that is not done never becomes done without the report of its own goal, whatever other
-- transitions reach it.
pub run_not_done :
    (task : NavigationTask) (ts : List NavigationTransition)
    → task.state ≢ done
    → All (λ t. is_to_goal task.goal.sequence_id t ≡ false) ts
    → (run task ts).0.state ≢ done
run_not_done task ts h a p = h (run_done task ts a p)
