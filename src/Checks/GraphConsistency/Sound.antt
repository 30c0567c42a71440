-- ===== src/Checks/GraphConsistency/Sound.antt =====
-- What an order that passes the check is like.
use libvda5050pp.Common.{
  ℕ, ◌≤◌, ◌<◌, ◌≡◌, inl, inr, Bool, true, false, ◌||◌, List, [], ◌∷◌, map, arith, All, is_empty,
  Bool-cases,
}
use libvda5050pp.Message.{Order}
use libvda5050pp.Checks.GraphConsistency.IdSet.{contains, last_id}
use libvda5050pp.Checks.GraphConsistency.Defs.{
  check_nodes, check_edges, check_ranges, check_order_graph_consistency,
}
use libvda5050pp.Checks.GraphConsistency.Walk.{
  Key, node_key, edge_key, has_id, Distinct, Walked, IsEven, IsOdd, Walk-cases, check_nodes-Walked,
  check_edges-Walked,
}
use libvda5050pp.Checks.GraphConsistency.Ranges.{contains-last_id, ranges_separated, ranges_full}

-- The released elements form the base, the others the horizon.
abbrev pub in_base : Order → ℕ → Bool
in_base order i =
    has_id true i (map node_key order.nodes) || has_id true i (map edge_key order.edges)

abbrev pub in_horizon : Order → ℕ → Bool
in_horizon order i =
    has_id false i (map node_key order.nodes) || has_id false i (map edge_key order.edges)

pub record IsConsistent (order : Order) : Type 0 where
  pub has_nodes : is_empty order.nodes ≡ false
  pub even_nodes : All IsEven order.nodes
  pub odd_edges : All IsOdd order.edges
  pub distinct_nodes : Distinct (map node_key order.nodes)
  pub distinct_edges : Distinct (map edge_key order.edges)
  pub separated : (i j : ℕ) → in_base order i ≡ true → in_horizon order j ≡ true → i < j
  pub gapless :
      (i j k : ℕ)
      → in_base order i || in_horizon order i ≡ true
      → in_base order k || in_horizon order k ≡ true
      → i ≤ j
      → j ≤ k
      → in_base order j || in_horizon order j ≡ true

abbrev pub IsUint32 : Key → Type 0
IsUint32 k = k.0 < 4294967296

pub has_id-IsUint32 :
    (released : Bool) (i : ℕ) (ks : List Key)
    → All IsUint32 ks
    → has_id released i ks ≡ true
    → i < 4294967296
unfolding has_id
has_id-IsUint32 released i [] a h = cc
has_id-IsUint32 released i (k ∷ ks) a h = ground (arith, has_id-IsUint32 released i ks a.1)

pub last_id-IsUint32 :
    (s : List ℕ) → ((i : ℕ) → contains i s ≡ true → i < 4294967296) → last_id s < 4294967296
unfolding last_id
last_id-IsUint32 [] a = omega arith
last_id-IsUint32 (j ∷ s) a = a (last_id (j ∷ s)) (contains-last_id j s)

-- The sets that the loops end with are the base and the horizon of the order.
IsConsistent-of_walk :
    (order : Order) (base horz base' horz' : List ℕ)
    → is_empty order.nodes ≡ false
    → All IsUint32 (map node_key order.nodes)
    → All IsUint32 (map edge_key order.edges)
    → All IsEven order.nodes
    → All IsOdd order.edges
    → Walked (map node_key order.nodes) [] [] base horz
    → Walked (map edge_key order.edges) base horz base' horz'
    → check_ranges base' horz' ≡ []
    → IsConsistent order
unfolding contains
IsConsistent-of_walk order base horz base' horz' nodes u v even odd w x ok =
    let b : (i : ℕ) → contains i base' ≡ in_base order i =
      λ i. ground (arith, w.in_base i, x.in_base i) in
    let h : (i : ℕ) → contains i horz' ≡ in_horizon order i =
      λ i. ground (arith, w.in_horz i, x.in_horz i) in
    let g = x.base_grows (w.base_grows tt) in
    let k = x.horz_grows (w.horz_grows tt) in
    let small = last_id-IsUint32 base' (λ i c. ground (
      arith,
      b i,
      has_id-IsUint32 true i (map node_key order.nodes) u,
      has_id-IsUint32 true i (map edge_key order.edges) v,
    )) in
    let small' = last_id-IsUint32 horz' (λ i c. ground (
      arith,
      h i,
      has_id-IsUint32 false i (map node_key order.nodes) u,
      has_id-IsUint32 false i (map edge_key order.edges) v,
    )) in
    record {
      has_nodes = nodes;
      even_nodes = even;
      odd_edges = odd;
      distinct_nodes = w.distinct;
      distinct_edges = x.distinct;
      separated = λ i j p q. ground (arith, b i, h j, ranges_separated i j base' horz' g k ok);
      gapless = λ i j m p q lo hi.
          ground (
            arith,
            b i,
            h i,
            b j,
            h j,
            b m,
            h m,
            ranges_full i j m base' horz' g k small small' ok,
          );
    }

-- An order with `uint32_t` sequence ids that passes the consistency check has a node; its nodes
-- have even and its edges odd sequence ids, no two nodes and no two edges the same; every sequence
-- id of the base is smaller than every one of the horizon; and between any two sequence ids of the
-- order none is missing.
pub check_order_graph_consistency-IsConsistent :
    (order : Order)
    → All IsUint32 (map node_key order.nodes)
    → All IsUint32 (map edge_key order.edges)
    → check_order_graph_consistency order ≡ []
    → IsConsistent order
unfolding check_order_graph_consistency
check_order_graph_consistency-IsConsistent order u v ok = elim (Bool-cases (is_empty order.nodes)) [
  | inl none_given ↦ absurd (ground arith)
  | inr nodes ↦ elim (Walk-cases (check_nodes order.nodes [] [])) [
    | inr (e, stop) ↦ absurd (ground arith)
    | inl (base, horz, go) ↦ elim (Walk-cases (check_edges order.edges base horz)) [
      | inr (e, stop) ↦ absurd (ground arith)
      | inl (base', horz', on) ↦
          let (even, w) = check_nodes-Walked order.nodes [] [] base horz go in
          let (odd, x) = check_edges-Walked order.edges base horz base' horz' on in
          IsConsistent-of_walk order base horz base' horz' nodes u v even odd w x (ground arith)
    ]
  ]
]
