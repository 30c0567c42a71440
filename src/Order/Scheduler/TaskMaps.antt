-- ===== src/Order/Scheduler/TaskMaps.antt =====
-- The maps of the tasks after `updateTasks`, read by lookups.
use text.Mathlib.Text.{◌==◌ as str_eq}
use text.Mathlib.TextEquality.{eq_iff}
use libvda5050pp.Common.{
  ℕ, ◌≡◌, refl, sym, ◌⊎◌, inl, inr, String, Bool, true, not, Option, none, some, List, [], ◌∷◌,
  arith, if◌then◌else◌, Bool-cases, Option-cases, ◌&&◌,
}
use libvda5050pp.Common.IdMap.{find, insert, insert_or_assign, find-insert_or_assign}
use libvda5050pp.Order.ActionTask.Defs.{ActionTask}
use libvda5050pp.Order.Scheduler.State.{Scheduler, paused_at, terminal_at}
use libvda5050pp.Order.Scheduler.Tasks.{drop_paused, drop_unpaused, drop_terminal, update_tasks}
use libvda5050pp.Order.Scheduler.Partition.{update_navigation-maps}

abbrev pub Tasks : Type 0
Tasks = List (String × ℕ)

-- No id stands twice.
abbrev pub Unique : Tasks → Type 0
Unique [] = Unit
Unique ((id, a) ∷ m) = (find id m ≡ none) × Unique m

abbrev pub first_of : Option ℕ → Option ℕ → Option ℕ
first_of (some a) b = some a
first_of none b = b

-- The task, if it is there and passes the test.
abbrev pub filtered : (ℕ → Bool) → Option ℕ → Option ℕ
filtered test none = none
filtered test (some a) = if test a then some a else none

abbrev pub runs : List ActionTask → ℕ → Bool
runs tasks a = not (paused_at tasks a) && not (terminal_at tasks a)

abbrev pub rests : List ActionTask → ℕ → Bool
rests tasks a = paused_at tasks a && not (terminal_at tasks a)

abbrev pub lives : List ActionTask → ℕ → Bool
lives tasks a = not (terminal_at tasks a)

find-insert :
    (k j : String) (a : ℕ) (m : Tasks)
    → find j (insert k a m) ≡ first_of (find j m) (if str_eq k j then some a else none)
unfolding insert
find-insert k j a m = elim (Option-cases (find k m)) [
  | inl missing ↦ elim (Bool-cases (str_eq k j)) [
    | inl same ↦
        let e : k ≡ j = (eq_iff k j).0 same in
        let gone : find j m ≡ none = rw (sym e) missing in
        ground (arith, find-insert_or_assign k j a m)
    | inr other ↦ ground (arith, find-insert_or_assign k j a m)
  ]
  | inr (w, known) ↦ elim (Bool-cases (str_eq k j)) [
    | inl same ↦
        let e : k ≡ j = (eq_iff k j).0 same in
        let here : find j m ≡ some w = rw (sym e) known in ground arith
    | inr other ↦ ground arith
  ]
]

insert_or_assign-Unique :
    (k : String) (a : ℕ) (m : Tasks) → find k m ≡ none → Unique m → Unique (insert_or_assign k a m)
unfolding insert_or_assign find
insert_or_assign-Unique k a [] h u = (refl, tt)
insert_or_assign-Unique k a ((j, w) ∷ m) h u =
    ground
      (arith, eq_iff j k, eq_iff k j, find-insert_or_assign k j a m, insert_or_assign-Unique k a m)

insert-Unique : (k : String) (a : ℕ) (m : Tasks) → Unique m → Unique (insert k a m)
unfolding insert
insert-Unique k a m u = ground (arith, insert_or_assign-Unique k a m)

-- A lookup at the head of a map.
head-none : (k j : String) (m : Tasks) → find k m ≡ none → str_eq k j ≡ true → find j m ≡ none
head-none k j m h same = rw (sym ((eq_iff k j).0 same)) h

drop_paused-stays :
    (tasks : List ActionTask) (m p : Tasks) (j : String)
    → Unique m
    → find j (drop_paused tasks m p).0 ≡ filtered (runs tasks) (find j m)
unfolding drop_paused find
drop_paused-stays tasks [] p j u = refl
drop_paused-stays tasks ((k, a) ∷ m) p j u =
    let rest =
      drop_paused-stays tasks m
        (if paused_at tasks a && not (terminal_at tasks a) then insert k a p else p) j u.1 in
    ground (arith, head-none k j m u.0)

drop_paused-moves :
    (tasks : List ActionTask) (m p : Tasks) (j : String)
    → Unique m
    → find j (drop_paused tasks m p).1 ≡ first_of (find j p) (filtered (rests tasks) (find j m))
unfolding drop_paused find
drop_paused-moves tasks [] p j u = ground arith
drop_paused-moves tasks ((k, a) ∷ m) p j u =
    let rest =
      drop_paused-moves tasks m
        (if paused_at tasks a && not (terminal_at tasks a) then insert k a p else p) j u.1 in
    ground (arith, head-none k j m u.0, find-insert k j a p)

drop_paused-Unique :
    (tasks : List ActionTask) (m p : Tasks) → Unique p → Unique (drop_paused tasks m p).1
unfolding drop_paused
drop_paused-Unique tasks [] p u = u
drop_paused-Unique tasks ((k, a) ∷ m) p u =
    drop_paused-Unique tasks m
      (if paused_at tasks a && not (terminal_at tasks a) then insert k a p else p)
      (ground (arith, insert-Unique k a p u))

drop_unpaused-stays :
    (tasks : List ActionTask) (m r : Tasks) (j : String)
    → Unique m
    → find j (drop_unpaused tasks m r).0 ≡ filtered (rests tasks) (find j m)
unfolding drop_unpaused find
drop_unpaused-stays tasks [] r j u = refl
drop_unpaused-stays tasks ((k, a) ∷ m) r j u =
    let rest =
      drop_unpaused-stays tasks m
        (if not (paused_at tasks a) && not (terminal_at tasks a) then insert k a r else r) j u.1 in
    ground (arith, head-none k j m u.0)

drop_unpaused-moves :
    (tasks : List ActionTask) (m r : Tasks) (j : String)
    → Unique m
    → find j (drop_unpaused tasks m r).1 ≡ first_of (find j r) (filtered (runs tasks) (find j m))
unfolding drop_unpaused find
drop_unpaused-moves tasks [] r j u = ground arith
drop_unpaused-moves tasks ((k, a) ∷ m) r j u =
    let rest =
      drop_unpaused-moves tasks m
        (if not (paused_at tasks a) && not (terminal_at tasks a) then insert k a r else r) j u.1 in
    ground (arith, head-none k j m u.0, find-insert k j a r)

drop_terminal-stays :
    (tasks : List ActionTask) (m : Tasks) (j : String)
    → Unique m
    → find j (drop_terminal tasks m) ≡ filtered (lives tasks) (find j m)
unfolding drop_terminal find
drop_terminal-stays tasks [] j u = refl
drop_terminal-stays tasks ((k, a) ∷ m) j u =
    let rest = drop_terminal-stays tasks m j u.1 in ground (arith, head-none k j m u.0)

-- In a scheduler whose maps hold no id twice, and whose running and paused maps share none,
-- `updateTasks` sorts the tasks by what they do: of the entries that the two maps had together, the
-- running map then has exactly those whose task neither is paused nor has ended, and the paused map
-- exactly those whose task is paused and has not ended, wherever they were before; of the active
-- map exactly the entries stay whose task has not ended. The task objects are untouched.
pub update_tasks_sorts :
    (s : Scheduler) (id : String)
    → Unique s.running_action_tasks
    → Unique s.paused_action_tasks
    → Unique s.active_action_tasks
    → (find id s.running_action_tasks ≡ none) ⊎ (find id s.paused_action_tasks ≡ none)
    → ((update_tasks s).tasks ≡ s.tasks)
      × (find id (update_tasks s).running_action_tasks
          ≡ filtered
              (runs s.tasks)
              (first_of (find id s.running_action_tasks) (find id s.paused_action_tasks)))
      × (find id (update_tasks s).paused_action_tasks
          ≡ filtered
              (rests s.tasks)
              (first_of (find id s.running_action_tasks) (find id s.paused_action_tasks)))
      × (find id (update_tasks s).active_action_tasks
          ≡ filtered (lives s.tasks) (find id s.active_action_tasks))
unfolding update_tasks
update_tasks_sorts s id ur up ua apart =
    let first = drop_paused s.tasks s.running_action_tasks s.paused_action_tasks in
    let second = drop_unpaused s.tasks first.1 first.0 in
    let (r, p, a, t) = update_navigation-maps (record s {
      active_action_tasks = drop_terminal s.tasks s.active_action_tasks;
      running_action_tasks = second.1;
      paused_action_tasks = second.0;
    }) in
    let u₁ = drop_paused-Unique s.tasks s.running_action_tasks s.paused_action_tasks up in
    let stays = drop_paused-stays s.tasks s.running_action_tasks s.paused_action_tasks id ur in
    let moves = drop_paused-moves s.tasks s.running_action_tasks s.paused_action_tasks id ur in
    let stays' = drop_unpaused-stays s.tasks first.1 first.0 id u₁ in
    let moves' = drop_unpaused-moves s.tasks first.1 first.0 id u₁ in
    (
      t,
      rw r (ground arith),
      rw p (ground arith),
      rw a (drop_terminal-stays s.tasks s.active_action_tasks id ua),
    )
