-- ===== src/Order/Scheduler/Exclusion.antt =====
-- `updateFetchNext`, the AGV's drive and the blocking actions.
use libvda5050pp.Common.{
  ℕ, All, ◌≡◌, refl, ◌⊎◌, inl, inr, Bool, true, false, not, none, some, List, [], ◌∷◌, ◌++◌, arith,
  is_empty, Bool-cases, ◌&&◌,
}
use libvda5050pp.Message.{Action, Node, Edge, BlockingType, none_blocking}
use libvda5050pp.Order.NavigationTask.Defs.{
  NavigationTask, transition as navigation_transition, transfer, new_task as new_navigation_task,
  set_segment, do_start as nav_start, state_effect as nav_effect, waiting, first_in_progress,
}
use libvda5050pp.Order.Scheduler.State.{
  Scheduler, QueueEvent, navigation_step, action_group, returns, navigate, has_navigation, is_none,
}
use libvda5050pp.Order.Scheduler.Fetch.{
  fetch_group, fetch_step, fetch_one, fetch_all, update_fetch_next, do_patch_segment, patch, covers,
  prefetch,
}
use libvda5050pp.Order.Scheduler.Starts.{AllUnblocking, start_actions_returns, all_of_empty}

-- While there is a navigation task, no active action blocks.
abbrev pub Exclusive : Scheduler → Type 0
Exclusive s = has_navigation s ≡ true → AllUnblocking s

-- No active action blocks where the scheduler's current blocking type is none.
abbrev pub Covered : Scheduler → Type 0
Covered s = is_none s.current_action_blocking_type ≡ true → AllUnblocking s

-- No action of a queued group blocks where the blocking type of the group is none.
abbrev pub GroupCovered : QueueEvent → Type 0
GroupCovered (navigation_step goal via stop) = Unit
GroupCovered (action_group actions ceiling) =
    is_none ceiling ≡ true → All (λ (a : Action). a.blocking_type ≡ none_blocking) actions

patch_navigation :
    (s : Scheduler)
    → ((do_patch_segment s).navigation_task ≡ s.navigation_task)
      × ((do_patch_segment s).active_action_tasks ≡ s.active_action_tasks)
      × ((do_patch_segment s).tasks ≡ s.tasks)
      × ((do_patch_segment s).current_action_blocking_type ≡ s.current_action_blocking_type)
unfolding do_patch_segment patch
patch_navigation s = ground arith

-- Both, at every round.
abbrev Sound : Scheduler → Type 0
Sound s = Exclusive s × Covered s

-- Nothing that blocks is active, whatever else has changed.
same-AllUnblocking :
    (s s' : Scheduler)
    → s'.tasks ≡ s.tasks
    → s'.active_action_tasks ≡ s.active_action_tasks
    → AllUnblocking s
    → AllUnblocking s'
same-AllUnblocking s s' t a u = rw t (rw a u)

drives :
    (s s' : Scheduler)
    → AllUnblocking s
    → s'.tasks ≡ s.tasks
    → s'.active_action_tasks ≡ s.active_action_tasks
    → Sound s'
drives s s' u t a = ((λ h. same-AllUnblocking s s' t a u), λ h. same-AllUnblocking s s' t a u)

group-Exclusive :
    (actions : List Action) (ceiling : BlockingType) (q : List QueueEvent) (s : Scheduler)
    → GroupCovered (action_group actions ceiling)
    → Sound s
    → (more : Bool) × (s' : Scheduler) × (fetch_group actions ceiling q s ≡ returns more s')
      × Sound s'
unfolding fetch_group
group-Exclusive actions ceiling q s g x = elim (Bool-cases (is_empty s.active_action_tasks)) [
  | inr busy ↦ (false, s, ground arith, x)
  | inl free ↦ elim (Bool-cases (has_navigation s && not (is_none ceiling))) [
    | inl driving ↦ (false, s, ground arith, x)
    | inr allowed ↦
        let s₁ : Scheduler = record s {
          current_segment = none;
          current_action_blocking_type = ceiling;
        } in
        let (s₂, started, k, u) = start_actions_returns actions s₁ in
        let all : (is_none ceiling ≡ true → AllUnblocking s₂) =
          λ n. u (g n) (all_of_empty s free) in
        (
          true,
          record s₂ { rcv_evt_queue = q },
          ground arith,
          ((λ h. all (ground (arith, k.navigation))), (λ h. all (ground (arith, k.blocking)))),
        )
  ]
]

-- Starting a new navigation task.
nav_start_returns :
    (task : NavigationTask) (s : Scheduler)
    → s.navigation_task ≡ some task
    → task.state ≡ waiting
    → (s' : Scheduler) × (navigate nav_start s ≡ returns tt s')
      × (s'.active_action_tasks ≡ s.active_action_tasks)
      × (s'.tasks ≡ s.tasks)
      × (s'.current_action_blocking_type ≡ s.current_action_blocking_type)
unfolding navigate navigation_transition transfer nav_effect
nav_start_returns task s h w = (
  record s {
    navigation_task = some (record task { state = first_in_progress });
    log = s.log ++ nav_effect first_in_progress task;
  },
  ground arith,
  refl,
  refl,
  refl,
)

-- A step at the head of the queue is started only without active actions or beside unblocking ones.
drive-Exclusive :
    (goal : Node) (via : Edge) (stop : Bool) (q : List QueueEvent) (s : Scheduler)
    → has_navigation s ≡ false
    → is_empty s.nav_interrupting_action_tasks ≡ true
    → AllUnblocking s
    → (is_empty s.active_action_tasks ≡ true) ⊎ (is_none s.current_action_blocking_type ≡ true)
    → (more : Bool) × (s' : Scheduler) × (fetch_step goal via stop q s ≡ returns more s') × Sound s'
unfolding fetch_step new_navigation_task set_segment
drive-Exclusive goal via stop q s h i free may =
    elim (Bool-cases (covers s.current_segment goal.sequence_id)) [
      | inl covered ↦
          let (s₂, started, a, t, b) =
            nav_start_returns (new_navigation_task goal via)
              (record s {
                navigation_task = some (new_navigation_task goal via);
                rcv_evt_queue = q;
              })
              refl refl in
          (true, s₂, ground arith, drives s s₂ free t a)
      | inr beyond ↦
          let segment : ℕ × ℕ =
            (goal.sequence_id, prefetch (navigation_step goal via stop ∷ q) goal.sequence_id) in
          let (s₂, started, a, t, b) =
            nav_start_returns (set_segment (new_navigation_task goal via) segment)
              (record s {
                navigation_task = some (set_segment (new_navigation_task goal via) segment);
                current_segment = some segment;
              })
              refl refl in
          (true, record s₂ { rcv_evt_queue = q }, ground arith, drives s s₂ free t a)
    ]

step-Exclusive :
    (goal : Node) (via : Edge) (stop : Bool) (q : List QueueEvent) (s : Scheduler)
    → Sound s
    → (more : Bool) × (s' : Scheduler) × (fetch_step goal via stop q s ≡ returns more s') × Sound s'
unfolding fetch_step
step-Exclusive goal via stop q s x = elim (Bool-cases (has_navigation s)) [
  | inl driving ↦
      let (_, a, t, _) = patch_navigation s in
      (false, do_patch_segment s, ground arith, drives s (do_patch_segment s) (x.0 driving) t a)
  | inr parked ↦ elim (Bool-cases (is_empty s.nav_interrupting_action_tasks)) [
    | inr busy ↦ (false, s, ground arith, x)
    | inl clear ↦
        elim (Bool-cases
          (not (is_empty s.active_action_tasks) && not (is_none s.current_action_blocking_type))) [
            | inl blocked ↦ (false, s, ground arith, x)
            | inr free ↦ elim (Bool-cases (is_empty s.active_action_tasks)) [
              | inl none_active ↦
                  drive-Exclusive goal via stop q s parked clear (all_of_empty s none_active)
                    (inl none_active)
              | inr some_active ↦
                  let n : is_none s.current_action_blocking_type ≡ true = ground arith in
                  drive-Exclusive goal via stop q s parked clear (x.1 n) (inr n)
            ]
          ]
  ]
]

one-Exclusive :
    (e : QueueEvent) (q : List QueueEvent) (s : Scheduler)
    → GroupCovered e
    → Sound s
    → (more : Bool) × (s' : Scheduler) × (fetch_one e q s ≡ returns more s') × Sound s'
unfolding fetch_one
one-Exclusive (action_group actions ceiling) q s g x = group-Exclusive actions ceiling q s g x
one-Exclusive (navigation_step goal via stop) q s g x = step-Exclusive goal via stop q s x

queue-Exclusive :
    (q : List QueueEvent) (s : Scheduler)
    → All GroupCovered q
    → Sound s
    → (s' : Scheduler) × (fetch_all q s ≡ returns tt s') × Sound s'
unfolding fetch_all
queue-Exclusive [] s g x = (s, refl, x)
queue-Exclusive (e ∷ q) s g x =
    let (more, s₁, r, y) = one-Exclusive e q s g.0 x in
    let (s₂, rest, z) = queue-Exclusive q s₁ g.1 y in
    elim (Bool-cases more) [ inr stop ↦ (s₁, ground arith, y) | inl next ↦ (s₂, ground arith, z) ]

-- Take a scheduler with two properties: while there is a navigation task, no active action blocks,
-- and while the current blocking type is none, no active action blocks. If in its queue no action
-- of a group whose blocking type is none blocks, `updateFetchNext` returns, and the scheduler has
-- the two properties again.
pub update_fetch_next-Exclusive :
    (s : Scheduler)
    → All GroupCovered s.rcv_evt_queue
    → Exclusive s
    → Covered s
    → (s' : Scheduler) × (update_fetch_next s ≡ returns tt s') × Exclusive s' × Covered s'
unfolding update_fetch_next
update_fetch_next-Exclusive s g x c =
    let (s', e, y) = queue-Exclusive s.rcv_evt_queue s g (x, c) in (s', e, y.0, y.1)
