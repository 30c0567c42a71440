-- ===== src/State/OrderManager/Position.antt =====
-- The graph of the current order and the AGV on it.
use libvda5050pp.Common.{
  ℕ, ◌+◌, max, ◌<◌, ◌≡◌, ◌≢◌, refl, String, true, none, some, Option-cases, inl, inr, [], ◌∷◌,
  arith, ok, err, ltb, false, is_empty, invalid_argument, if◌then◌else◌,
}
use libvda5050pp.Common.OrdMap.{find, first?, last?, From}
use libvda5050pp.State.Graph.Element.{GraphElement, get_id, is_node, is_base, is_horizon}
use libvda5050pp.State.Graph.Defs.{
  Graph, bounds, base_bounds, extend, at, agv_position, set_agv_last_node_sequence_id, trim,
  or_else, last_base?,
}
use libvda5050pp.State.Graph.Valid.{Elements, IsSorted, AgvOnBase, Contiguous}
use libvda5050pp.State.Graph.Agv.{trim_lem}
use libvda5050pp.State.Graph.Range.{at-find, find-first?, find-last?}
use libvda5050pp.State.Graph.Extend.{Extends, extend_joined, extend_apart}
use libvda5050pp.State.OrderManager.Defs.{
  OrderManager, returned, thrown, extend_graph, extend_graph_locked, replace_graph,
  replace_graph_locked, set_agv_last_node,
}

-- A graph with an element has bounds.
bounds-find :
    (g : Graph) (j : ℕ) (e : GraphElement)
    → From 0 g.graph
    → find j g.graph ≡ some e
    → (f : ℕ) × (l : ℕ) × (bounds g ≡ ok (f, l))
unfolding bounds
bounds-find g j e s h =
    let (f, first, low) = find-first? 0 j e g.graph s h in
    let (l, last, high, _) = find-last? 0 j e g.graph s h in (f.0, l.0, ground arith)

last?-some :
    (f : ℕ × GraphElement) (m : Elements)
    → first? m ≡ some f
    → (l : ℕ × GraphElement) × (last? m ≡ some l)
unfolding first? last?
last?-some f [] h = cc
last?-some f (e ∷ []) h = (e, refl)
last?-some f (e ∷ e' ∷ m) h = last?-some e' (e' ∷ m) refl

-- A graph with a base has bounds.
bounds_of_base :
    (g : Graph) (bf bl : ℕ) → base_bounds g ≡ ok (bf, bl) → (l : ℕ) × (bounds g ≡ ok (bf, l))
unfolding base_bounds bounds
bounds_of_base g bf bl h = elim (Option-cases (first? g.graph)) [
  | inl missing ↦ absurd (ground arith)
  | inr (f, first) ↦ elim (Option-cases (last_base? g.graph)) [
    | inl missing ↦ absurd (ground arith)
    | inr (b, there) ↦ let (l, last) = last?-some f g.graph first in (l.0, ground arith)
  ]
]

-- The graph after the AGV reached the node: nothing before it is left.
pub record Reached (seq : ℕ) (g g' : Graph) : Type 0 where
  pub valid : IsSorted g'
  pub on_base : AgvOnBase g'
  pub position : g'.agv_pos ≡ some seq
  pub elements : (j : ℕ) → find j g'.graph ≡ (if ltb j seq then none else find j g.graph)

-- On a sorted graph, a report of the AGV at a released node is accepted: the
-- graph is then sorted, holds exactly the elements from that node on, and has the
-- AGV there, and the manager keeps the sequence id and the id of the node.
pub set_agv_last_node_lem :
    (seq : ℕ) (m : OrderManager) (g : Graph) (e : GraphElement)
    → m.graph ≡ some g
    → IsSorted g
    → find seq g.graph ≡ some e
    → is_node e ≡ true
    → is_base e ≡ true
    → (g' : Graph) × (set_agv_last_node seq m
        ≡ returned tt
            (record m { graph = some g'; last_node_sequence_id = seq; last_node_id = get_id e }))
      × Reached seq g g'
unfolding set_agv_last_node set_agv_last_node_sequence_id agv_position trim
set_agv_last_node_lem seq m g e known v found n b =
    let g₁ : Graph = record g { agv_pos = some seq } in
    let v₁ : IsSorted g₁ = record {
      ordered = v.ordered;
      keyed = v.keyed;
      separated = v.separated;
    } in
    let (g₂, trimmed, v₂, on_base, lookups) =
      trim_lem g₁ seq v₁ (λ p q. (e, ground arith, n, b)) refl in
    let position : g₂.agv_pos ≡ some seq = ground arith in
    let there : find seq g₂.graph ≡ some e = ground (arith, lookups seq) in
    let at_seq : at g₂ seq ≡ ok e = at-find g₂ seq e v₂.ordered there in
    (
      g₂,
      ground arith,
      record { valid = v₂; on_base = on_base; position = position; elements = lookups },
    )

-- An order update that does not stitch to the graph of the order is refused, and the graph stays;
-- but its order update id is already taken over.
pub extend_graph_apart :
    (m : OrderManager) (this other : Graph) (order_update_id bf bl of ol : ℕ)
    → m.graph ≡ some this
    → base_bounds this ≡ ok (bf, bl)
    → bounds other ≡ ok (of, ol)
    → bl + 1 < 4294967296
    → bl + 1 ≢ of
    → bl ≢ of
    → extend_graph other order_update_id m
      ≡ thrown invalid_argument (record m { order_update_id = order_update_id })
unfolding extend_graph extend_graph_locked
extend_graph_apart m this other order_update_id bf bl of ol known b o w p q =
    let refused : extend this other ≡ err invalid_argument =
      extend_apart this other bf bl of ol b o w p q in
    let (l, range) = bounds_of_base this bf bl b in ground arith

-- An order update that stitches to the graph of the order, both sorted and without gaps and not
-- with two different AGV positions, is taken over where the last base element is below the largest
-- `uint32_t`: the extended graph is sorted, not empty and without gaps, has the known AGV position,
-- holds the elements of the other graph and, where that has none, the base elements of the old one,
-- and the order update id is the new one.
pub extend_graph_joined :
    (n k : ℕ) (m : OrderManager) (this other : Graph) (order_update_id bf bl of ol : ℕ)
    → m.graph ≡ some this
    → Extends n k this other bf bl of ol
    → (g' : Graph) × (extend_graph other order_update_id m
        ≡ returned
            (max (bl + 1) of, ol)
            (record m { graph = some g'; order_update_id = order_update_id }))
      × IsSorted g'
      × (is_empty g'.graph ≡ false)
      × Contiguous n g'.graph
      × (g'.agv_pos ≡ or_else this.agv_pos other.agv_pos)
      × ((j : ℕ)
          → find j g'.graph ≡ (elim (find j other.graph) [
            | some e ↦ some e
            | none ↦ elim (find j this.graph) [
              | none ↦ none
              | some e ↦ if is_base e then some e else none
            ]
          ]))
unfolding extend_graph extend_graph_locked
extend_graph_joined n k m this other order_update_id bf bl of ol known x =
    let (g', done, v, filled, c, p, lookups) = extend_joined n k this other bf bl of ol x in
    let (l, range) = bounds_of_base this bf bl x.this_base in
    (g', ground (arith, x.other_range), v, filled, c, p, lookups)

-- A new order whose graph is sorted and has a released node 0 replaces the current one:
-- the AGV is on that node, and the order update id starts again at 0.
pub replace_graph_released :
    (m : OrderManager) (g : Graph) (order_id : String) (e : GraphElement)
    → IsSorted g
    → find 0 g.graph ≡ some e
    → is_node e ≡ true
    → is_base e ≡ true
    → (replace_graph g order_id m
        ≡ returned tt (record m {
          graph = some (record g { agv_pos = some 0 });
          order_id = order_id;
          order_update_id = 0;
          last_node_sequence_id = 0;
        }))
      × AgvOnBase (record g { agv_pos = some 0 })
unfolding replace_graph replace_graph_locked set_agv_last_node_sequence_id
replace_graph_released m g order_id e v found n b =
    let (f, l, range) = bounds-find g 0 e v.ordered found in
    (ground arith, (λ p q. (e, ground arith, n, b)))

-- A new order whose graph is sorted, but whose element 0 is not released, is refused
-- by a throw; its graph and its order id are in the manager all the same.
pub replace_graph_unreleased :
    (m : OrderManager) (g : Graph) (order_id : String) (e : GraphElement)
    → IsSorted g
    → find 0 g.graph ≡ some e
    → is_horizon e ≡ true
    → replace_graph g order_id m
      ≡ thrown invalid_argument (record m {
        graph = some g;
        order_id = order_id;
        order_update_id = 0;
        last_node_sequence_id = 0;
      })
unfolding replace_graph replace_graph_locked set_agv_last_node_sequence_id
replace_graph_unreleased m g order_id e v found h =
    let (f, l, range) = bounds-find g 0 e v.ordered found in ground arith
