-- ===== src/State/OrderManager/Defs.antt =====
-- The methods of `OrderManager`. The lock that a method takes makes it one step; where the caller
-- passes a lock, `owned` tells whether it holds the mutex. A throw keeps what was changed before
-- it.
use text.Mathlib.Text.{◌==◌ as str_eq}
use libvda5050pp.Common.{
  ℕ, String, Bool, true, false, not, Option, none, some, List, [], map, Result, ok, err, Error,
  invalid_argument, null_pointer, if◌then◌else◌,
}
use libvda5050pp.Common.IdMap.{find, insert}
use libvda5050pp.Message.{Action, ActionState, ActionStatus}
use libvda5050pp.Order.Dispatch.{OrderStatus}
use libvda5050pp.State.Graph.Element.{get_id}
use libvda5050pp.State.Graph.Defs.{
  Graph, bounds, extend, at, agv_position, set_agv_last_node_sequence_id, trim,
}

pub record OrderManager : Type 0 where
  pub order_id : String
  pub order_update_id : ℕ  -- uint32_t
  pub last_node_id : String
  pub last_node_sequence_id : ℕ  -- uint32_t
  pub graph : Option Graph
  pub action_by_id : List (String × Action)
  pub action_state_by_id : List (String × ActionState)
  pub order_status : OrderStatus

pub data Reply (A : Type 0) : Type 0 where
  returned : A → OrderManager → Reply A
  thrown : Error → OrderManager → Reply A

-- A call that may throw, and what follows it.
abbrev pub attempt : {A B : Type 0} → Result A → OrderManager → (A → Reply B) → Reply B
attempt r m k = elim r [ ok a ↦ k a | err e ↦ thrown e m ]

-- The state of a new action.
unfoldable pub waiting_state : Action → ActionState
waiting_state action = record {
  action_id = action.action_id;
  action_type = action.action_type;
  action_description = action.action_description;
  action_status = ActionStatus.waiting;
  result_description = none;
}

unfoldable pub add_new_action_locked : Bool → Option Action → OrderManager → Reply (Unit {0})
add_new_action_locked owned action m =
    if not owned then thrown invalid_argument m else elim action [
      | none ↦ thrown null_pointer m
      | some a ↦ elim (find a.action_id m.action_by_id) [
        | some known ↦ thrown invalid_argument m
        | none ↦
            let m' = record m { action_by_id = insert a.action_id a m.action_by_id } in
            elim (find a.action_id m.action_state_by_id) [
              | some known ↦ thrown invalid_argument m'
              | none ↦ returned tt (record m' {
                action_state_by_id = insert a.action_id (waiting_state a) m.action_state_by_id;
              })
            ]
      ]
    ]

unfoldable pub add_new_action : Option Action → OrderManager → Reply (Unit {0})
add_new_action = add_new_action_locked true

unfoldable pub get_action : OrderManager → String → Result Action
get_action m action_id = elim (find action_id m.action_by_id) [
  | none ↦ err invalid_argument
  | some a ↦ ok a
]

unfoldable pub try_get_action : OrderManager → String → Option Action
try_get_action m action_id = find action_id m.action_by_id

unfoldable pub get_action_state : OrderManager → String → Result ActionState
get_action_state m action_id = elim (find action_id m.action_state_by_id) [
  | none ↦ err invalid_argument
  | some s ↦ ok s
]

unfoldable pub try_get_action_state : OrderManager → String → Option ActionState
try_get_action_state m action_id = find action_id m.action_state_by_id

abbrev pub get_order_id : OrderManager → String × ℕ
get_order_id m = (m.order_id, m.order_update_id)

unfoldable pub set_order_status : OrderStatus → OrderManager → OrderManager
set_order_status status m = record m { order_status = status }

-- The range of the current graph, which is read for the log.
abbrev known_range : Option Graph → Result (Option (ℕ × ℕ))
known_range none = ok none
known_range (some g) = elim (bounds g) [ ok b ↦ ok (some b) | err e ↦ err e ]

unfoldable pub extend_graph_locked : Bool → Graph → OrderManager → Reply (ℕ × ℕ)
extend_graph_locked owned extension m =
    if not owned
    then thrown invalid_argument m
    else attempt (known_range m.graph) m (λ _. attempt (bounds extension) m (λ _. elim m.graph [
      | none ↦ thrown invalid_argument m
      | some g ↦ attempt (extend g extension) m (λ r. returned r.1 (record m { graph = some r.0 }))
    ]))

-- The overload with an order update id.
unfoldable pub extend_graph : Graph → ℕ → OrderManager → Reply (ℕ × ℕ)
extend_graph extension order_update_id m =
    extend_graph_locked true extension (record m { order_update_id = order_update_id })

unfoldable pub replace_graph_locked : Bool → Graph → String → OrderManager → Reply (Unit {0})
replace_graph_locked owned new_graph order_id m =
    if not owned
    then thrown invalid_argument m
    else attempt (bounds new_graph) m (λ _.
      let m' = record m { graph = some new_graph; order_id = order_id; order_update_id = 0 } in
      attempt (set_agv_last_node_sequence_id new_graph 0) m'
        (λ g. returned tt (record m' { graph = some g })))

unfoldable pub replace_graph : Graph → String → OrderManager → Reply (Unit {0})
replace_graph new_graph order_id m =
    replace_graph_locked true new_graph order_id (record m { last_node_sequence_id = 0 })

unfoldable pub get_current_graph : OrderManager → Result Graph
get_current_graph m = elim m.graph [ none ↦ err invalid_argument | some g ↦ ok g ]

abbrev pub has_graph : OrderManager → Bool
has_graph m = elim m.graph [ none ↦ false | some g ↦ true ]

unfoldable pub set_agv_last_node : ℕ → OrderManager → Reply (Unit {0})
set_agv_last_node agv_seq_id m = elim m.graph [
  | none ↦ thrown invalid_argument m
  | some g ↦ attempt (set_agv_last_node_sequence_id g agv_seq_id) m (λ g₁.
      let m₁ = record m { graph = some g₁ } in
      attempt (trim g₁) m₁ (λ g₂.
        let m₂ = record m { graph = some g₂ } in
        attempt (agv_position g₂) m₂ (λ seq.
          let m₃ = record m₂ { last_node_sequence_id = seq } in
          attempt (at g₂ seq) m₃ (λ e. returned tt (record m₃ { last_node_id = get_id e })))))
]

unfoldable pub set_agv_last_node_id : String → OrderManager → Bool × OrderManager
set_agv_last_node_id last_node_id m =
    (not (str_eq m.last_node_id last_node_id), record m { last_node_id = last_node_id })

abbrev pub fail_waiting : ActionState → ActionState
fail_waiting s = elim s.action_status [
  | ActionStatus.waiting ↦ record s { action_status = ActionStatus.failed }
  | _ ↦ s
]

unfoldable pub cancel_waiting_actions : OrderManager → OrderManager
cancel_waiting_actions m = record m {
  action_state_by_id = map (λ e. (e.0, fail_waiting e.1)) m.action_state_by_id;
}

unfoldable pub clear_actions : OrderManager → OrderManager
clear_actions m = record m { action_state_by_id = []; action_by_id = [] }

unfoldable pub clear_graph : OrderManager → OrderManager
clear_graph m = record m { graph = none }
