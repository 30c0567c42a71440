-- ===== src/Checks/Actions/Accept.antt =====
-- The actions of an order that passes the check, given to the order manager.
use text.Mathlib.Text.{◌==◌ as str_eq}
use text.Mathlib.TextEquality.{eq_iff}
use libvda5050pp.Common.{
  Bool-cases, inl, inr, subst, ◌≡◌, ◌≢◌, refl, arith, String, Option, none, some, List, [], ◌∷◌,
  All, if◌then◌else◌,
}
use libvda5050pp.Message.{Action, ActionState, Order}
use libvda5050pp.State.OrderManager.Defs.{
  OrderManager, Reply, returned, thrown, add_new_action, try_get_action, try_get_action_state,
}
use libvda5050pp.State.OrderManager.Actions.{IsPaired, announced_state, add_new_action_fresh}
use libvda5050pp.Checks.Actions.Ids.{check_order_action_ids}
use libvda5050pp.Checks.Actions.Unique.{
  Unknown, DistinctIds, order_actions, check_order_action_ids_lem,
}

-- The new actions arrive one after the other; a throw ends it.
unfoldable pub add_new_actions : List Action → OrderManager → Reply (Unit {0})
add_new_actions [] m = returned tt m
add_new_actions (a ∷ as') m = elim (add_new_action (some a) m) [
  | thrown e m' ↦ thrown e m'
  | returned _ m' ↦ add_new_actions as' m'
]

still-Unknown :
    (a : Action) (m m' : OrderManager) (as' : List Action)
    → ((id : String)
        → try_get_action m' id ≡ (if str_eq a.action_id id then some a else try_get_action m id))
    → All (λ (b : Action). b.action_id ≢ a.action_id) as'
    → Unknown (try_get_action m) as'
    → Unknown (try_get_action m') as'
still-Unknown a m m' [] h d u = tt
still-Unknown a m m' (b ∷ as') h d u =
    let x = d.0 in
    let y = u.0 in
    (
      ground (arith, h b.action_id, eq_iff a.action_id b.action_id),
      still-Unknown a m m' as' h d.1 u.1,
    )

-- The first of the actions with the id.
unfoldable pub with_id : String → List Action → Option Action
with_id id [] = none
with_id id (a ∷ as') = if str_eq a.action_id id then some a else with_id id as'

with_id-none :
    (a : Action) (as' : List Action)
    → All (λ (b : Action). b.action_id ≢ a.action_id) as'
    → with_id a.action_id as' ≡ none
unfolding with_id
with_id-none a [] d = refl
with_id-none a (b ∷ as') d =
    let x = d.0 in ground (arith, eq_iff b.action_id a.action_id, with_id-none a as' d.1)

-- The state under an id: that of the new action with the id, or else the old one.
abbrev pub state_with : Option Action → Option ActionState → Option ActionState
state_with none old = old
state_with (some a) old = some (announced_state a)

state_after :
    (a : Action) (as' : List Action) (m m₁ m₂ : OrderManager) (id : String)
    → All (λ (b : Action). b.action_id ≢ a.action_id) as'
    → try_get_action_state m₁ id
      ≡ (if str_eq a.action_id id then some (announced_state a) else try_get_action_state m id)
    → try_get_action_state m₂ id ≡ state_with (with_id id as') (try_get_action_state m₁ id)
    → try_get_action_state m₂ id ≡ state_with (with_id id (a ∷ as')) (try_get_action_state m id)
unfolding with_id
state_after a as' m m₁ m₂ id d one rest = elim (Bool-cases (str_eq a.action_id id)) [
  | inr e ↦ ground arith
  | inl e ↦
      let same : a.action_id ≡ id = (eq_iff a.action_id id).0 e in
      let missing : with_id id as' ≡ none =
        subst (λ x. with_id x as' ≡ none) same (with_id-none a as' d) in
      ground arith
]

added :
    (as' : List Action) (m : OrderManager)
    → IsPaired m
    → Unknown (try_get_action m) as'
    → DistinctIds as'
    → (m' : OrderManager) × (add_new_actions as' m ≡ returned tt m')
      × IsPaired m'
      × ((id : String)
          → try_get_action_state m' id ≡ state_with (with_id id as') (try_get_action_state m id))
unfolding add_new_actions with_id
added [] m p u d = (m, refl, p, λ id. refl)
added (a ∷ as') m p u d =
    let (m₁, one, p₁, actions, states) = add_new_action_fresh a m p u.0 in
    let (m₂, rest, p₂, after) = added as' m₁ p₁ (still-Unknown a m m₁ as' actions d.0 u.1) d.1 in
    (m₂, ground arith, p₂, λ id. state_after a as' m m₁ m₂ id d.0 (states id) (after id))

-- Where exactly the known actions have a state, the manager takes all actions of an order that
-- passes the check of its action ids against the manager's actions, given to it one after the
-- other: nothing is thrown, under the id of each of them is then a state with its id, type and
-- description, which is waiting and has no result, and the states under all other ids stay; still
-- exactly the known actions have a state.
pub check_order_action_ids-accepted :
    (order : Order) (m : OrderManager)
    → IsPaired m
    → check_order_action_ids (try_get_action m) order ≡ []
    → (m' : OrderManager) × (add_new_actions (order_actions order) m ≡ returned tt m')
      × IsPaired m'
      × ((id : String)
          → try_get_action_state m' id
            ≡ state_with (with_id id (order_actions order)) (try_get_action_state m id))
check_order_action_ids-accepted order m p h =
    let (u, d) = (check_order_action_ids_lem (try_get_action m) order).0 h in
    added (order_actions order) m p u d
