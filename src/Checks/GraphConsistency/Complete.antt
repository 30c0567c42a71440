-- ===== src/Checks/GraphConsistency/Complete.antt =====
-- Which orders pass the check.
use libvda5050pp.Common.{
  ℕ, ◌%◌, ◌<◌, ◌≡◌, ◌≢◌, refl, Bool, true, false, not, ◌||◌, List, [], ◌∷◌, ◌++◌, map, arith, All,
  is_empty,
}
use libvda5050pp.Message.{Node, Edge, Order}
use libvda5050pp.Checks.GraphConsistency.IdSet.{contains, last_id, contains-insert_id}
use libvda5050pp.Checks.GraphConsistency.Defs.{
  found, take_id, check_node, check_edge, check_nodes, check_edges, check_ranges,
  check_order_graph_consistency,
}
use libvda5050pp.Checks.GraphConsistency.Walk.{
  Key, node_key, edge_key, has_id, Distinct, New, put, Walked, IsEven, IsOdd, check_nodes-Walked,
  check_edges-Walked,
}
use libvda5050pp.Checks.GraphConsistency.Sound.{IsConsistent, in_base, in_horizon}
use libvda5050pp.Checks.GraphConsistency.Ranges.{contains-last_id, ranges_accept}

put-New :
    (seq : ℕ) (released : Bool) (base horz : List ℕ) (ks : List Key)
    → All (New base horz) ks
    → All (λ j. j.0 ≢ seq) ks
    → All (New (put released seq base) (put (not released) seq horz)) ks
put-New seq released base horz [] a d = tt
put-New seq true base horz (k ∷ ks) a d = (
  (ground (arith, contains-insert_id k.0 seq base, d.0), a.0.1),
  put-New seq true base horz ks a.1 d.1,
)
put-New seq false base horz (k ∷ ks) a d = (
  (a.0.0, ground (arith, contains-insert_id k.0 seq horz, d.0)),
  put-New seq false base horz ks a.1 d.1,
)

check_nodes-accepts :
    (ns : List Node) (base horz : List ℕ)
    → All IsEven ns
    → Distinct (map node_key ns)
    → All (New base horz) (map node_key ns)
    → (base' : List ℕ) × (horz' : List ℕ) × (check_nodes ns base horz ≡ found base' horz')
unfolding check_nodes check_node take_id
check_nodes-accepts [] base horz a d u = (base, horz, refl)
check_nodes-accepts (n ∷ ns) base horz a d u =
    let (base', horz', go) =
      check_nodes-accepts ns (put n.released n.sequence_id base)
        (put (not n.released) n.sequence_id horz) a.1 d.1
        (put-New n.sequence_id n.released base horz (map node_key ns) u.1 d.0) in
    (base', horz', ground arith)

check_edges-accepts :
    (es : List Edge) (base horz : List ℕ)
    → All IsOdd es
    → Distinct (map edge_key es)
    → All (New base horz) (map edge_key es)
    → (base' : List ℕ) × (horz' : List ℕ) × (check_edges es base horz ≡ found base' horz')
unfolding check_edges check_edge take_id
check_edges-accepts [] base horz a d u = (base, horz, refl)
check_edges-accepts (e ∷ es) base horz a d u =
    let (base', horz', go) =
      check_edges-accepts es (put e.released e.sequence_id base)
        (put (not e.released) e.sequence_id horz) a.1 d.1
        (put-New e.sequence_id e.released base horz (map edge_key es) u.1 d.0) in
    (base', horz', ground arith)

has_id-even :
    (released : Bool) (i : ℕ) (ns : List Node)
    → All IsEven ns
    → has_id released i (map node_key ns) ≡ true
    → i % 2 ≡ 0
unfolding has_id
has_id-even released i [] a h = cc
has_id-even released i (n ∷ ns) a h = ground (arith, has_id-even released i ns a.1)

abbrev pub IsBelowMax : Key → Type 0
IsBelowMax k = k.0 < 4294967295

has_id-IsBelowMax :
    (released : Bool) (i : ℕ) (ks : List Key)
    → All IsBelowMax ks
    → has_id released i ks ≡ true
    → i < 4294967295
unfolding has_id
has_id-IsBelowMax released i [] a h = cc
has_id-IsBelowMax released i (k ∷ ks) a h = ground (arith, has_id-IsBelowMax released i ks a.1)

last_id-IsBelowMax :
    (s : List ℕ) → ((i : ℕ) → contains i s ≡ true → i < 4294967295) → last_id s < 4294967295
unfolding last_id
last_id-IsBelowMax [] a = omega arith
last_id-IsBelowMax (j ∷ s) a = a (last_id (j ∷ s)) (contains-last_id j s)

New-keys : (ns : List Key) → All (New [] []) ns
unfolding contains
New-keys [] = tt
New-keys (k ∷ ks) = ((refl, refl), New-keys ks)

New-edges :
    (es : List Edge) (ns : List Node) (base horz : List ℕ)
    → All IsEven ns
    → All IsOdd es
    → Walked (map node_key ns) [] [] base horz
    → All (New base horz) (map edge_key es)
unfolding contains
New-edges [] ns base horz a o w = tt
New-edges (e ∷ es) ns base horz a o w = (
  (
    ground (arith, w.in_base e.sequence_id, has_id-even true e.sequence_id ns a),
    ground (arith, w.in_horz e.sequence_id, has_id-even false e.sequence_id ns a),
  ),
  New-edges es ns base horz a o.1 w,
)

inhabited : (i : ℕ) (s t : List ℕ) → contains i s || contains i t ≡ true → is_empty (s ++ t) ≡ false
unfolding contains
inhabited i [] [] h = absurd (ground arith)
inhabited i [] (j ∷ t) h = refl
inhabited i (j ∷ s) t h = refl

first_node :
    (ns : List Node)
    → is_empty ns ≡ false
    → (i : ℕ) × (has_id true i (map node_key ns) || has_id false i (map node_key ns) ≡ true)
unfolding has_id
first_node [] h = absurd (ground arith)
first_node (n ∷ ns) h = (n.sequence_id, ground arith)

ranges_of_walk :
    (order : Order) (base horz base' horz' : List ℕ)
    → IsConsistent order
    → All IsBelowMax (map node_key order.nodes)
    → All IsBelowMax (map edge_key order.edges)
    → Walked (map node_key order.nodes) [] [] base horz
    → Walked (map edge_key order.edges) base horz base' horz'
    → check_ranges base' horz' ≡ []
unfolding contains
ranges_of_walk order base horz base' horz' c u v w x =
    let b : (i : ℕ) → contains i base' ≡ in_base order i =
      λ i. ground (arith, w.in_base i, x.in_base i) in
    let h : (i : ℕ) → contains i horz' ≡ in_horizon order i =
      λ i. ground (arith, w.in_horz i, x.in_horz i) in
    let (i, there) = first_node order.nodes c.has_nodes in
    ranges_accept base' horz' (x.base_grows (w.base_grows tt)) (x.horz_grows (w.horz_grows tt))
      (inhabited i base' horz' (ground (arith, b i, h i)))
      (last_id-IsBelowMax base' λ j p. ground (
        arith,
        b j,
        has_id-IsBelowMax true j (map node_key order.nodes) u,
        has_id-IsBelowMax true j (map edge_key order.edges) v,
      ))
      (last_id-IsBelowMax horz' λ j p. ground (
        arith,
        h j,
        has_id-IsBelowMax false j (map node_key order.nodes) u,
        has_id-IsBelowMax false j (map edge_key order.edges) v,
      ))
      (λ j k p q. ground (arith, b j, h k, c.separated j k))
      (λ j k l p q lo hi. ground (arith, b j, h j, b k, h k, b l, h l, c.gapless j k l))

-- Every order with a node, even sequence ids of nodes and odd ones of edges, no two nodes and no
-- two edges the same, its base below its horizon and no sequence id missing between two others
-- passes the consistency check, if its sequence ids are below the largest `uint32_t`.
pub check_order_graph_consistency_complete :
    (order : Order)
    → All IsBelowMax (map node_key order.nodes)
    → All IsBelowMax (map edge_key order.edges)
    → IsConsistent order
    → check_order_graph_consistency order ≡ []
unfolding check_order_graph_consistency
check_order_graph_consistency_complete order u v c =
    let (base, horz, go) =
      check_nodes-accepts order.nodes [] [] c.even_nodes c.distinct_nodes
        (New-keys (map node_key order.nodes)) in
    let (_, w) = check_nodes-Walked order.nodes [] [] base horz go in
    let (base', horz', on) =
      check_edges-accepts order.edges base horz c.odd_edges c.distinct_edges
        (New-edges order.edges order.nodes base horz c.even_nodes c.odd_edges w) in
    let (_, x) = check_edges-Walked order.edges base horz base' horz' on in
    let good = ranges_of_walk order base horz base' horz' c u v w x in ground (arith, c.has_nodes)
