-- ===== src/Checks/Actions/Ids.antt =====
-- `uniqueActionId` and `checkOrderActionIds`. The set of the ids seen is the list of them; `known`
-- is what the order manager finds by an id. An error has the actions whose ids and types it names.
use text.Mathlib.Text.{◌==◌ as str_eq}
use libvda5050pp.Common.{
  String, Bool, false, ◌||◌, Option, none, some, List, [], ◌∷◌, ◌++◌, if◌then◌else◌,
}
use libvda5050pp.Message.{Action, Node, Edge, Order}

pub data IdError : Type 0 where
  duplicate_action_id : Action → IdError
  non_unique_action_id : Action → Action → IdError

unfoldable pub seen_id : String → List String → Bool
seen_id id [] = false
seen_id id (i ∷ seen) = str_eq id i || seen_id id seen

-- The errors, and the ids that have been seen then.
unfoldable pub unique_action_id :
    (String → Option Action) → Action → List String → List IdError × List String
unique_action_id known a seen =
    if seen_id a.action_id seen
    then (duplicate_action_id a ∷ [], seen)
    else (elim (known a.action_id) [
      | some k ↦ (non_unique_action_id k a ∷ [], a.action_id ∷ seen)
      | none ↦ ([], a.action_id ∷ seen)
    ])

-- The inner loop, over the actions of a node or of an edge.
unfoldable pub check_actions :
    (String → Option Action) → List Action → List String → List IdError × List String
check_actions known [] seen = ([], seen)
check_actions known (a ∷ as') seen =
    let (es, seen₁) = unique_action_id known a seen in
    let (fs, seen₂) = check_actions known as' seen₁ in (es ++ fs, seen₂)

unfoldable pub check_node_actions :
    (String → Option Action) → List Node → List String → List IdError × List String
check_node_actions known [] seen = ([], seen)
check_node_actions known (n ∷ ns) seen =
    let (es, seen₁) = check_actions known n.actions seen in
    let (fs, seen₂) = check_node_actions known ns seen₁ in (es ++ fs, seen₂)

unfoldable pub check_edge_actions :
    (String → Option Action) → List Edge → List String → List IdError × List String
check_edge_actions known [] seen = ([], seen)
check_edge_actions known (e ∷ es') seen =
    let (es, seen₁) = check_actions known e.actions seen in
    let (fs, seen₂) = check_edge_actions known es' seen₁ in (es ++ fs, seen₂)

unfoldable pub check_order_action_ids : (String → Option Action) → Order → List IdError
check_order_action_ids known order =
    let (es, seen) = check_node_actions known order.nodes [] in
    let (fs, _) = check_edge_actions known order.edges seen in es ++ fs
