-- ===== src/Checks/Following.antt =====
-- What an order has that passes `checkOrderId` and `checkOrderAppend`.
use text.Mathlib.Text.{◌==◌ as str_eq}
use text.Mathlib.TextEquality.{eq_iff}
use libvda5050pp.Common.{
  ℕ, ◌≤◌, ◌≡◌, refl, sym, subst, ◌⊎◌, inl, inr, true, false, Option, ◌&&◌, none, some, List, [],
  ◌∷◌, arith, All, ok, ◌>>=◌, ltb, leb, is_empty, Bool-cases, Result-cases,
}
use libvda5050pp.Message.{Node, Order}
use libvda5050pp.Order.Dispatch.{order_idle, order_idle_paused}
use libvda5050pp.State.Graph.Defs.{Graph, base_bounds}
use libvda5050pp.State.OrderManager.Defs.{OrderManager}
use libvda5050pp.Checks.Stitching.{
  check_order_id, check_order_append, may_replace, min_sequence_id, min_sequence_id_lem, base_last,
  stitches,
}

-- One of the nodes has the sequence id.
abbrev pub Occurs : ℕ → List Node → Type 0
Occurs i [] = ⊥
Occurs i (n ∷ ns) = (n.sequence_id ≡ i) ⊎ Occurs i ns

-- The last sequence id of the base of the current order, 0 without one.
abbrev pub BaseEnd : Option Graph → ℕ → Type 0
BaseEnd none last = last ≡ 0
BaseEnd (some g) last = (first : ℕ) × (base_bounds g ≡ ok (first, last))

abbrev pub IsFree : OrderManager → Type 0
IsFree m = (m.order_status ≡ order_idle) ⊎ (m.order_status ≡ order_idle_paused)

-- The order belongs to the current one, or that has ended; its smallest sequence id is the last one
-- of the base, or 0 where the current order has ended.
pub record Follows (m : OrderManager) (order : Order) : Type 0 where
  pub may_follow : IsFree m ⊎ (order.order_id ≡ m.order_id)
  pub first : ℕ
  pub last : ℕ
  pub lowest : All (λ (n : Node). first ≤ n.sequence_id) order.nodes
  pub occurs : Occurs first order.nodes
  pub base_end : BaseEnd m.graph last
  pub meets : (first ≡ last) ⊎ (IsFree m × (first ≡ 0))

pub check_order_id-newer :
    (m : OrderManager) (order : Order)
    → check_order_id m order ≡ []
    → m.order_id ≡ order.order_id
    → m.order_update_id ≤ order.order_update_id
unfolding check_order_id
check_order_id-newer m order h same =
    let x = (eq_iff m.order_id order.order_id).1 same in ground arith

may_replace-IsFree : (m : OrderManager) → may_replace m.order_status ≡ true → IsFree m
may_replace-IsFree m h = ground arith

min_sequence_id-Occurs :
    (least : ℕ) (ns : List Node)
    → (min_sequence_id least ns ≡ least) ⊎ Occurs (min_sequence_id least ns) ns
unfolding min_sequence_id
min_sequence_id-Occurs least [] = inl refl
min_sequence_id-Occurs least (n ∷ ns) = elim (Bool-cases (ltb n.sequence_id least)) [
  | inl low ↦ ground (arith, min_sequence_id-Occurs n.sequence_id ns)
  | inr high ↦ ground (arith, min_sequence_id-Occurs least ns)
]

BaseEnd-of_bounds :
    (graph : Option Graph) (last : ℕ)
    → (elim graph [ none ↦ ok 0 | some g ↦ (do b ← base_bounds g; ok b.1) ]) ≡ ok last
    → BaseEnd graph last
BaseEnd-of_bounds none last h = ground arith
BaseEnd-of_bounds (some g) last h = elim (Result-cases (base_bounds g)) [
  | inl (b, e) ↦ (b.0, ground arith)
  | inr (x, e) ↦ absurd (ground arith)
]

base_last-BaseEnd : (m : OrderManager) (last : ℕ) → base_last m ≡ ok last → BaseEnd m.graph last
unfolding base_last
base_last-BaseEnd m last h = BaseEnd-of_bounds m.graph last h

stitches-meets :
    (m : OrderManager) (first last : ℕ)
    → stitches m first last ≡ []
    → (first ≡ last) ⊎ (IsFree m × (first ≡ 0))
stitches-meets m first last h = ground (arith, may_replace-IsFree m)

-- A newer order that passes.
newer-Follows :
    (m : OrderManager) (order : Order) (n : Node) (ns : List Node)
    → order.nodes ≡ n ∷ ns
    → str_eq order.order_id m.order_id && leb order.order_update_id m.order_update_id ≡ false
    → check_order_append m order ≡ ok []
    → Follows m order
unfolding check_order_append
newer-Follows m order n ns e new h = elim (Result-cases (base_last m)) [
  | inr (x, thrown) ↦ absurd (ground arith)
  | inl (last, end) ↦
      let (low, lows) = min_sequence_id_lem n.sequence_id ns in
      let met : stitches m (min_sequence_id n.sequence_id ns) last ≡ [] = ground arith in
      record {
        may_follow = ground (arith, may_replace-IsFree m, eq_iff order.order_id m.order_id);
        first = min_sequence_id n.sequence_id ns;
        last = last;
        lowest =
            subst (λ xs. All (λ (k : Node). min_sequence_id n.sequence_id ns ≤ k.sequence_id) xs)
              (sym e) (low, lows);
        occurs =
            subst (λ xs. Occurs (min_sequence_id n.sequence_id ns) xs) (sym e)
              (ground (arith, min_sequence_id-Occurs n.sequence_id ns));
        base_end = base_last-BaseEnd m last end;
        meets = stitches-meets m (min_sequence_id n.sequence_id ns) last met;
      }
]

filled-cons : (xs : List Node) → is_empty xs ≡ false → (n : Node) × (ns : List Node) × (xs ≡ n ∷ ns)
filled-cons [] h = absurd (ground arith)
filled-cons (n ∷ ns) h = (n, ns, refl)

pub check_order_append-Follows :
    (m : OrderManager) (order : Order)
    → check_order_id m order ≡ []
    → check_order_append m order ≡ ok []
    → is_empty order.nodes ≡ false
    → ((m.order_id ≡ order.order_id) × (m.order_update_id ≡ order.order_update_id))
      ⊎ Follows m order
check_order_append-Follows m order i h filled =
    let same = eq_iff order.order_id m.order_id in
    elim (Bool-cases
      (str_eq order.order_id m.order_id && leb order.order_update_id m.order_update_id)) [
        | inl old ↦
            let p : m.order_id ≡ order.order_id = sym (same.0 (ground arith)) in
            let low = check_order_id-newer m order i p in inl (p, ground arith)
        | inr new ↦
            let (n, ns, e) = filled-cons order.nodes filled in
            inr (newer-Follows m order n ns e new h)
      ]
