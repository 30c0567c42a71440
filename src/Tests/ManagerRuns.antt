-- ===== src/Tests/ManagerRuns.antt =====
-- The order manager at a small order.
use text.Mathlib.Text.{◌==◌ as str_eq}
use libvda5050pp.Common.{
  ℕ, is_empty, ◌≡◌, refl, String, true, false, none, some, [], ◌∷◌, arith, invalid_argument,
  if◌then◌else◌,
}
use libvda5050pp.Common.IdMap.{find}
use libvda5050pp.Common.OrdMap.{find as find_element, first?, last?}
use libvda5050pp.Message.{ActionStatus}
use libvda5050pp.Order.Dispatch.{OrderStatus}
use libvda5050pp.State.Graph.Element.{get_id, is_base}
use libvda5050pp.State.Graph.Defs.{Graph, bounds, base_bounds, last_base?}
use libvda5050pp.State.Graph.Valid.{IsSorted, Contiguous}
use libvda5050pp.State.OrderManager.Defs.{
  OrderManager, returned, thrown, add_new_action, try_get_action, try_get_action_state,
  extend_graph, replace_graph, set_agv_last_node,
}
use libvda5050pp.State.OrderManager.Actions.{announced_state, IsPaired, add_new_action_fresh}
use libvda5050pp.State.OrderManager.Position.{
  Reached, set_agv_last_node_lem, extend_graph_apart, extend_graph_joined, replace_graph_unreleased,
}
use libvda5050pp.Tests.Data.{n, small, more, lift, beep}
use libvda5050pp.Tests.GraphRuns.{small-IsSorted, more-Extends, far}

abbrev pub manager : OrderManager
manager = record {
  order_id = "order";
  order_update_id = 3;
  last_node_id = "n";
  last_node_sequence_id = 0;
  graph = some small;
  action_by_id = ("lift", lift) ∷ [];
  action_state_by_id =
      (
        "lift",
        record {
          action_id = "lift";
          action_type = "lift";
          action_description = none;
          action_status = ActionStatus.waiting;
          result_description = none;
        },
      )
      ∷ [];
  order_status = OrderStatus.order_active;
}

pub manager-IsPaired : IsPaired manager
unfolding find
manager-IsPaired = record { alike = λ id. ground arith }

add_new_action_fresh_example :
    (m' : OrderManager) × (add_new_action (some beep) manager ≡ returned tt m')
    × IsPaired m'
    × ((id : String)
        → try_get_action m' id
          ≡ (if str_eq "beep" id then some beep else try_get_action manager id))
    × ((id : String)
        → try_get_action_state m' id ≡ (
            if str_eq "beep" id
            then some (announced_state beep)
            else try_get_action_state manager id))
unfolding find try_get_action
add_new_action_fresh_example = add_new_action_fresh beep manager manager-IsPaired refl

set_agv_last_node_lem_example :
    (g' : Graph) × (set_agv_last_node 2 manager
      ≡ returned tt (record manager {
        graph = some g';
        last_node_sequence_id = 2;
        last_node_id = get_id (n 2 true);
      }))
    × Reached 2 small g'
unfolding find_element
set_agv_last_node_lem_example =
    set_agv_last_node_lem 2 manager small (n 2 true) refl small-IsSorted refl refl refl

extend_graph_apart_example :
    extend_graph far 4 manager ≡ thrown invalid_argument (record manager { order_update_id = 4 })
unfolding base_bounds bounds last_base? first? last?
extend_graph_apart_example =
    extend_graph_apart manager small far 4 0 2 6 6 refl refl refl (omega arith)
      (λ p. absurd (omega arith)) (λ p. absurd (omega arith))

extend_graph_joined_example :
    (g' : Graph) × (extend_graph more 4 manager
      ≡ returned (3, 4) (record manager { graph = some g'; order_update_id = 4 }))
    × IsSorted g'
    × (is_empty g'.graph ≡ false)
    × Contiguous 0 g'.graph
    × (g'.agv_pos ≡ some 0)
    × ((j : ℕ)
        → find_element j g'.graph ≡ (elim (find_element j more.graph) [
          | some e ↦ some e
          | none ↦ elim (find_element j small.graph) [
            | none ↦ none
            | some e ↦ if is_base e then some e else none
          ]
        ]))
extend_graph_joined_example = extend_graph_joined 0 2 manager small more 4 0 2 2 4 refl more-Extends

-- An order of which nothing is released.
abbrev announced : Graph
announced = record { agv_pos = none; graph = (0, n 0 false) ∷ [] }

replace_graph_unreleased_example :
    replace_graph announced "next" manager
    ≡ thrown invalid_argument (record manager {
      graph = some announced;
      order_id = "next";
      order_update_id = 0;
      last_node_sequence_id = 0;
    })
unfolding find_element
replace_graph_unreleased_example =
    replace_graph_unreleased manager announced "next" (n 0 false)
      (record { ordered = ground arith; keyed = ground arith; separated = ground arith }) refl refl
