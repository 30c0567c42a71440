-- ===== src/Checks/Stitching.antt =====
-- `checkOrderId` and `checkOrderAppend` of core/checks/order.cpp: whether an order may follow the
-- current one. An error has the numbers that it reports; ids and texts are left out.
use text.Mathlib.Text.{◌==◌ as str_eq}
use libvda5050pp.Common.{
  ℕ, ◌≤◌, ◌≡◌, subst, Bool, true, false, not, ◌&&◌, ◌||◌, none, some, List, [], ◌∷◌, arith, All,
  Result, ok, ◌>>=◌, ltb, leb, ◌==◌, if◌then◌else◌,
}
use libvda5050pp.Message.{Node, Order}
use libvda5050pp.Order.Dispatch.{OrderStatus, order_idle, order_idle_paused}
use libvda5050pp.State.Graph.Defs.{Graph, base_bounds}
use libvda5050pp.State.OrderManager.Defs.{OrderManager}

pub data UpdateError : Type 0 where
  decreasing_update_id : ℕ → ℕ → UpdateError
  other_order : UpdateError
  not_stitched : ℕ → ℕ → UpdateError

unfoldable pub check_order_id : OrderManager → Order → List UpdateError
check_order_id m order =
    if str_eq m.order_id order.order_id && ltb order.order_update_id m.order_update_id
    then decreasing_update_id m.order_update_id order.order_update_id ∷ []
    else []

abbrev pub may_replace : OrderStatus → Bool
may_replace order_idle = true
may_replace order_idle_paused = true
may_replace _ = false

-- `min_element` of the nodes by sequence id.
unfoldable pub min_sequence_id : ℕ → List Node → ℕ
min_sequence_id least [] = least
min_sequence_id least (n ∷ ns) =
    min_sequence_id (if ltb n.sequence_id least then n.sequence_id else least) ns

-- The last sequence id of the base, 0 without a graph.
unfoldable pub base_last : OrderManager → Result ℕ
base_last m = elim m.graph [ none ↦ ok 0 | some g ↦ (do b ← base_bounds g; ok b.1) ]

abbrev pub stitches : OrderManager → ℕ → ℕ → List UpdateError
stitches m min_seq last =
    if last == min_seq || (may_replace m.order_status && min_seq == 0)
    then []
    else not_stitched min_seq last ∷ []

unfoldable pub check_order_append : OrderManager → Order → Result (List UpdateError)
check_order_append m order =
    if str_eq order.order_id m.order_id && leb order.order_update_id m.order_update_id
    then ok []
    else (if not (may_replace m.order_status) && not (str_eq order.order_id m.order_id)
        then ok (other_order ∷ [])
        else elim order.nodes [
          | [] ↦ ok []
          | n ∷ ns ↦ do last ← base_last m; ok (stitches m (min_sequence_id n.sequence_id ns) last)
        ])

pub min_sequence_id_lem :
    (least : ℕ) (ns : List Node)
    → (min_sequence_id least ns ≤ least)
      × All (λ (n : Node). min_sequence_id least ns ≤ n.sequence_id) ns
unfolding min_sequence_id
min_sequence_id_lem least [] = (omega arith, tt)
min_sequence_id_lem least (n ∷ ns) =
    let (low, lows) =
      min_sequence_id_lem (if ltb n.sequence_id least then n.sequence_id else least) ns in
    (ground arith, (ground arith, lows))

-- While an order is executed, a newer order that has nodes and passes the check belongs to the same
-- order and is stitched to it: the smallest sequence id of its nodes is the last one of the base.
pub check_order_append_lem :
    (m : OrderManager) (order : Order) (g : Graph) (n : Node) (ns : List Node) (bf bl : ℕ)
    → may_replace m.order_status ≡ false
    → m.graph ≡ some g
    → base_bounds g ≡ ok (bf, bl)
    → order.nodes ≡ n ∷ ns
    → str_eq order.order_id m.order_id && leb order.order_update_id m.order_update_id ≡ false
    → check_order_append m order ≡ ok []
    → (str_eq order.order_id m.order_id ≡ true)
      × (min_sequence_id n.sequence_id ns ≡ bl)
      × All (λ (k : Node). bl ≤ k.sequence_id) (n ∷ ns)
unfolding check_order_append base_last
check_order_append_lem m order g n ns bf bl busy known b nodes newer pass =
    let same : str_eq order.order_id m.order_id ≡ true = ground arith in
    let stitched : min_sequence_id n.sequence_id ns ≡ bl = ground arith in
    let (low, lows) = min_sequence_id_lem n.sequence_id ns in
    (
      same,
      stitched,
      (
        omega (arith, low, stitched),
        subst (λ x. All (λ (k : Node). x ≤ k.sequence_id) ns) stitched lows,
      ),
    )
