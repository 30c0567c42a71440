-- ===== src/Checks/GraphConsistency/Defs.antt =====
-- The check. An error has the field that tells it from the others of its kind; the order's ids, the
-- texts and the level are left out.
use libvda5050pp.Common.{
  ℕ, ◌+◌, ◌-◌, ◌%◌, max, min, String, Bool, not, ◌&&◌, ◌||◌, List, [], ◌∷◌, length, is_empty, leb,
  ◌==◌, if◌then◌else◌, u32,
}
use libvda5050pp.Message.{Node, Edge, Order}
use libvda5050pp.Checks.GraphConsistency.IdSet.{contains, insert_id, first_id, last_id}

pub data CheckError : Type 0 where
  no_nodes : CheckError
  odd_node even_edge duplicate_node duplicate_edge : String → ℕ → CheckError
  skipped : CheckError
  horizon_below_base : CheckError

-- The sets `found_base` and `found_horz` so far, or the error that ends the check.
pub data Walk : Type 0 where
  found : List ℕ → List ℕ → Walk
  rejected : CheckError → Walk

abbrev pub then_walk : Walk → (List ℕ → List ℕ → Walk) → Walk
then_walk w k = elim w [ found base horz ↦ k base horz | rejected e ↦ rejected e ]

-- One round of either loop.
unfoldable pub take_id : Bool → CheckError → CheckError → ℕ → Bool → List ℕ → List ℕ → Walk
take_id wrong_parity parity duplicate seq released base horz =
    if wrong_parity
    then rejected parity
    else (if contains seq base || contains seq horz
        then rejected duplicate
        else (if released
            then found (insert_id seq base) horz
            else found base (insert_id seq horz)))

unfoldable pub check_node : Node → List ℕ → List ℕ → Walk
unfolding take_id
check_node n =
    take_id (n.sequence_id % 2 == 1) (odd_node n.node_id n.sequence_id)
      (duplicate_node n.node_id n.sequence_id) n.sequence_id n.released

unfoldable pub check_edge : Edge → List ℕ → List ℕ → Walk
unfolding take_id
check_edge e =
    take_id (e.sequence_id % 2 == 0) (even_edge e.edge_id e.sequence_id)
      (duplicate_edge e.edge_id e.sequence_id) e.sequence_id e.released

unfoldable pub check_nodes : List Node → List ℕ → List ℕ → Walk
unfolding check_node
check_nodes [] base horz = found base horz
check_nodes (n ∷ ns) base horz =
    then_walk (check_node n base horz) (λ base' horz'. check_nodes ns base' horz')

unfoldable pub check_edges : List Edge → List ℕ → List ℕ → Walk
unfolding check_edge
check_edges [] base horz = found base horz
check_edges (e ∷ es) base horz =
    then_walk (check_edge e base horz) (λ base' horz'. check_edges es base' horz')

-- `max_seq` and `min_seq`
unfoldable pub max_seq : List ℕ → List ℕ → ℕ
max_seq base horz =
    if is_empty base
    then last_id horz
    else (if is_empty horz then last_id base else max (last_id base) (last_id horz))

unfoldable pub min_seq : List ℕ → List ℕ → ℕ
min_seq base horz =
    if is_empty base
    then first_id horz
    else (if is_empty horz then first_id base else min (first_id base) (first_id horz))

unfoldable pub check_ranges : List ℕ → List ℕ → List CheckError
check_ranges base horz =
    if not (u32 (max_seq base horz - min_seq base horz + 1) == length base + length horz)
    then skipped ∷ []
    else (if (not (is_empty horz) && not (is_empty base)) && leb (first_id horz) (last_id base)
        then horizon_below_base ∷ []
        else [])

unfoldable pub check_order_graph_consistency : Order → List CheckError
check_order_graph_consistency order =
    if is_empty order.nodes
    then no_nodes ∷ []
    else elim (then_walk (check_nodes order.nodes [] [])
        (λ base horz. check_edges order.edges base horz)) [
          | rejected e ↦ e ∷ []
          | found base horz ↦ check_ranges base horz
        ]
