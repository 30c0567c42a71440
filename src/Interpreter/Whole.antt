-- ===== src/Interpreter/Whole.antt =====
-- The interpreter on an order that is a path.
use libvda5050pp.Common.{
  ℕ, ◌+◌, ◌≡◌, refl, ap, ◌∙◌, subst, arith, true, false, List, [], ◌∷◌, ◌++◌, All, ok,
}
use libvda5050pp.Message.{Node, Order, BlockingType}
use libvda5050pp.State.Graph.Element.{node, edge, is_horizon}
use libvda5050pp.State.Graph.Defs.{from_elements}
use libvda5050pp.Interpreter.Iter.{from_order, handling_initial}
use libvda5050pp.Interpreter.Handlers.{before_edge, interpret, all_events}
use libvda5050pp.Interpreter.Goes.{interpret_of_Goes}
use libvda5050pp.Interpreter.Actions.{at_actions}
use libvda5050pp.Interpreter.PathGraph.{Ascends, from_elements-path}
use libvda5050pp.Interpreter.Expected.{
  Leg, Released, Unreleased, Leads, elements_of, edges_of, path_graph, order_events, OrderPath,
}
use libvda5050pp.Interpreter.Start.{at_first, order_go}

elements_of-append : (ls ms : List Leg) → elements_of (ls ++ ms) ≡ elements_of ls ++ elements_of ms
elements_of-append [] ms = refl
elements_of-append (l ∷ ls) ms = ap (λ x. edge l.via ∷ node l.goal ∷ x) (elements_of-append ls ms)

base_elements : (ls : List Leg) → All Released ls → All (λ x. is_horizon x ≡ false) (elements_of ls)
base_elements [] h = tt
base_elements (l ∷ ls) h =
    let e = h.0.0 in let n = h.0.1 in (ground arith, (ground arith, base_elements ls h.1))

horizon_elements :
    (ls : List Leg) → All Unreleased ls → All (λ x. is_horizon x ≡ true) (elements_of ls)
horizon_elements [] h = tt
horizon_elements (l ∷ ls) h =
    let e = h.0.0 in let n = h.0.1 in (ground arith, (ground arith, horizon_elements ls h.1))

Ascends-Leads : (s : ℕ) (ls : List Leg) → Ascends s (elements_of ls) → All Leads ls
Ascends-Leads s [] a = tt
Ascends-Leads s (l ∷ ls) a = (omega (arith, a.1.0), Ascends-Leads l.goal.sequence_id ls a.1.1)

Ascends-before_edge :
    (s : ℕ) (ls : List Leg) → Ascends s (elements_of ls) → before_edge s (edges_of ls) ≡ true
Ascends-before_edge s [] a = refl
Ascends-before_edge s (l ∷ ls) a = let b = a.0 in ground arith

path_of-graph :
    (order : Order) (n : Node) (base horizon : List Leg)
    → OrderPath order n base horizon
    → from_elements (node n ∷ elements_of (base ++ horizon)) ≡ ok (path_graph n (base ++ horizon))
path_of-graph order n base horizon path =
    let starts = path.starts in
    let ascends = path.ascends in
    let split = elements_of-append base horizon in
    let made =
      from_elements-path (node n) (elements_of base) (elements_of horizon) (ground arith)
        (subst (Ascends n.sequence_id) split ascends) (base_elements base path.base_released)
        (horizon_elements horizon path.horizon_unreleased) in
    cc

-- For every order that is a path (the first node and the base released, the horizon not, the
-- sequence ids growing along it) there is an amount of fuel and of rounds from which on the
-- interpretation ends by itself and without a throw, with exactly the events that the path is to be
-- translated to, leg by leg, of which the last one carries the graph of all its elements.
pub interpret_order :
    (uninitialised : BlockingType) (order : Order) (n : Node) (base horizon : List Leg)
    → OrderPath order n base horizon
    → (f : ℕ) × (r : ℕ) × ((i j : ℕ)
        → interpret (f + i) (r + j) (from_order uninitialised order)
          ≡ (order_events uninitialised order n base (base ++ horizon), all_events))
unfolding from_order order_events
interpret_order c order n base horizon path =
    let its_edges = path.its_edges in
    let its_nodes = path.its_nodes in
    let all = base ++ horizon in
    let (end, go, stop) =
      order_go (from_order c order) n base horizon c (path_graph n all) path.starts
        (Ascends-before_edge n.sequence_id all path.ascends) path.base_released
        path.horizon_unreleased (Ascends-Leads n.sequence_id all path.ascends)
        (path_of-graph order n base horizon path) in
    let (f, r, run) = interpret_of_Goes go stop in
    let start : from_order c order
        ≡ at_actions (at_first (from_order c order) n all) handling_initial [] [] c false [] =
      cc in
    (
      f,
      r,
      λ i j. ap (interpret (f + i) (r + j)) start ∙ run (f + i) (r + j) (omega arith) (omega arith),
    )
