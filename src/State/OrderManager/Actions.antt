-- ===== src/State/OrderManager/Actions.antt =====
-- The actions of the current order and their states.
use text.Mathlib.Text.{◌==◌ as str_eq}
use libvda5050pp.Common.{
  ◌≡◌, ◌≢◌, refl, String, Bool, true, false, Option, none, some, List, [], ◌∷◌, arith, All, Error,
  map, if◌then◌else◌,
}
use libvda5050pp.Common.IdMap.{find, insert, find-insert_or_assign}
use libvda5050pp.Message.{Action, ActionState, ActionStatus}
use libvda5050pp.State.OrderManager.Defs.{
  OrderManager, returned, thrown, waiting_state, add_new_action_locked, add_new_action,
  try_get_action, try_get_action_state, fail_waiting, cancel_waiting_actions,
}

abbrev is_known : {A : Type 0} → Option A → Bool
is_known none = false
is_known (some a) = true

-- Exactly the known actions have a state.
pub record IsPaired (m : OrderManager) : Type 0 where
  pub alike :
      (id : String) → is_known (find id m.action_by_id) ≡ is_known (find id m.action_state_by_id)

find-insert :
    {V : Type 0} (k j : String) (v : V) (m : List (String × V))
    → find k m ≡ none
    → find j (insert k v m) ≡ (if str_eq k j then some v else find j m)
unfolding insert
find-insert k j v m h = ground (arith, find-insert_or_assign k j v m)

-- The state of an action that is announced: waiting, without a result.
abbrev pub announced_state : Action → ActionState
announced_state a = record {
  action_id = a.action_id;
  action_type = a.action_type;
  action_description = a.action_description;
  action_status = ActionStatus.waiting;
  result_description = none;
}

announced_state_lem : (a : Action) → waiting_state a ≡ announced_state a
unfolding waiting_state
announced_state_lem a = refl

-- An action whose id is not known yet is added where exactly the known actions have a state. It is
-- then found by its id, and so is a state with its id, type and description, which is waiting and
-- has no result; every other lookup stays, and again exactly the known actions have a state.
pub add_new_action_fresh :
    (a : Action) (m : OrderManager)
    → IsPaired m
    → try_get_action m a.action_id ≡ none
    → (m' : OrderManager) × (add_new_action (some a) m ≡ returned tt m')
      × IsPaired m'
      × ((id : String)
          → try_get_action m' id ≡ (if str_eq a.action_id id then some a else try_get_action m id))
      × ((id : String)
          → try_get_action_state m' id ≡ (
              if str_eq a.action_id id
              then some (announced_state a)
              else try_get_action_state m id))
unfolding add_new_action add_new_action_locked try_get_action try_get_action_state
add_new_action_fresh a m p h =
    let no_state : find a.action_id m.action_state_by_id ≡ none =
      ground (arith, p.alike a.action_id) in
    let in_actions = λ (id : String). find-insert a.action_id id a m.action_by_id h in
    let in_states = λ (id : String).
      find-insert a.action_id id (announced_state a) m.action_state_by_id no_state in
    let same = announced_state_lem a in
    (
      record m {
        action_by_id = insert a.action_id a m.action_by_id;
        action_state_by_id = insert a.action_id (announced_state a) m.action_state_by_id;
      },
      ground arith,
      record { alike = λ id. ground (arith, p.alike id, in_actions id, in_states id) },
      in_actions,
      in_states,
    )

-- Where exactly the known actions have a state, adding an action that is refused changes nothing.
pub add_new_action_refused :
    (a : Option Action) (m m' : OrderManager) (e : Error)
    → IsPaired m
    → add_new_action a m ≡ thrown e m'
    → m' ≡ m
unfolding add_new_action add_new_action_locked
add_new_action_refused none m m' e p h = ground arith
add_new_action_refused (some a) m m' e p h = ground (arith, p.alike a.action_id)

abbrev pub NotWaiting : String × ActionState → Type 0
NotWaiting e = e.1.action_status ≢ ActionStatus.waiting

none_waiting :
    (l : List (String × ActionState)) → All NotWaiting (map (λ e. (e.0, fail_waiting e.1)) l)
none_waiting [] = tt
none_waiting ((id, s) ∷ l) = (ground arith, none_waiting l)

known_after :
    (id : String) (l : List (String × ActionState))
    → find id (map (λ e. (e.0, fail_waiting e.1)) l)
      ≡ (elim (find id l) [ none ↦ none | some s ↦ some (fail_waiting s) ])
unfolding find
known_after id [] = refl
known_after id ((j, s) ∷ l) = ground (arith, known_after id l)

-- After the waiting actions are canceled none is waiting. Every state is found as before, a waiting
-- one as failed, and still exactly the known actions have a state, if they had before.
pub cancel_waiting_actions_lem :
    (m : OrderManager)
    → IsPaired m
    → All NotWaiting (cancel_waiting_actions m).action_state_by_id
      × ((id : String)
          → try_get_action_state (cancel_waiting_actions m) id
            ≡ (elim (try_get_action_state m id) [ none ↦ none | some s ↦ some (fail_waiting s) ]))
      × IsPaired (cancel_waiting_actions m)
unfolding cancel_waiting_actions try_get_action_state
cancel_waiting_actions_lem m p = (
  none_waiting m.action_state_by_id,
  (λ id. known_after id m.action_state_by_id),
  record { alike = λ id. ground (arith, p.alike id, known_after id m.action_state_by_id) },
)
