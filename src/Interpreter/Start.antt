-- ===== src/Interpreter/Start.antt =====
-- How the handlers go from the first node on to the end.
use libvda5050pp.Common.{
  Bool-cases, inl, inr, ◌≡◌, arith, Bool, true, false, ◌||◌, none, some, List, [], ◌∷◌, ◌++◌, map,
  append-nil, is_empty, ◌==◌, if◌then◌else◌, ok, All,
}
use libvda5050pp.Message.{Node, BlockingType}
use libvda5050pp.State.Graph.Element.{GraphElement, node}
use libvda5050pp.State.Graph.Defs.{Graph, update_all, from_elements}
use libvda5050pp.Interpreter.Events.{clear_actions, new_action}
use libvda5050pp.Interpreter.Iter.{
  IterState, handling_initial, handling_pre_node_action, handling_node_action, handling_transition,
  EventIter, skip, yield_event, finished,
}
use libvda5050pp.Interpreter.Handlers.{handle, handle_initial, handle_pre_node_action, before_edge}
use libvda5050pp.Interpreter.Goes.{Goes, here, skips, yields, Goes-append}
use libvda5050pp.Interpreter.Groups.{flush, groups, stops, ceiling_after}
use libvda5050pp.Interpreter.Actions.{at_actions, node-Cycle}
use libvda5050pp.Interpreter.ActionRun.{actions_go}
use libvda5050pp.Interpreter.Expected.{
  Leg, Released, Unreleased, Leads, edges_of, nodes_of, elements_of, leg_events, graph_event,
  opening, first_actions,
}
use libvda5050pp.Interpreter.Legs.{leg_state, at_legs}
use libvda5050pp.Interpreter.Transitions.{first_transition, update_all-cons}
use libvda5050pp.Interpreter.Refines.{Goes-events, legs_go}

first_element :
    (n : Node) (es : List GraphElement) (h : Graph)
    → from_elements (node n ∷ es) ≡ ok h
    → (g : Graph) × (from_elements (node n ∷ []) ≡ ok g) × (update_all g es ≡ ok h)
unfolding from_elements update_all
first_element n es h u =
    let (g, p, q) = update_all-cons (record { agv_pos = none; graph = [] }) h (node n) es u in
    (g, (ground arith), q)

-- The iterator before the first node.
abbrev pub at_first : EventIter → Node → List Leg → EventIter
at_first it n ls = record it {
  nodes = n ∷ nodes_of ls;
  edges = edges_of ls;
  current_goal_node = none;
  current_via_edge = none;
}

first_state : Bool → IterState
first_state visits = if visits then handling_pre_node_action else handling_transition

-- The first node, with its actions or without.
visit_go :
    (it : EventIter) (n : Node) (ls : List Leg) (g : Graph) (c : BlockingType) (visits : Bool)
    → n.released ≡ true
    → before_edge n.sequence_id (edges_of ls) ≡ true
    → from_elements (node n ∷ []) ≡ ok g
    → let as' = if visits then n.actions else [] in
      Goes
        (at_actions (at_first it n ls) (first_state visits) [] [] c false [])
        (map new_action as')
        (at_actions
          (at_legs it ls (some g) none)
          (leg_state ls)
          []
          []
          (ceiling_after as' [] c)
          (stops as')
          (groups as' [] c))
unfolding handle handle_pre_node_action first_state stops groups flush
visit_go it n ls g c true r b u = skips (node_first it n ls c r) (
    Goes-events (append-nil (map new_action n.actions)) (
      Goes-append (actions_go node-Cycle (at_first it n ls) n.actions [] c false []) (
        skips
          (first_transition it n ls g (ceiling_after n.actions [] c) (stops n.actions)
            (groups n.actions [] c) b u)
          here)))
  where
    node_first :
        (it : EventIter) (n : Node) (ls : List Leg) (c : BlockingType)
        → n.released ≡ true
        → handle (at_actions (at_first it n ls) handling_pre_node_action [] [] c false [])
          ≡ skip (at_actions (at_first it n ls) handling_node_action n.actions [] c false [])
    node_first it n ls c r = ground arith
visit_go it n ls g c false r b u = skips (first_transition it n ls g c false [] b u) here

initial_yields :
    (it : EventIter) (n : Node) (ls : List Leg) (c : BlockingType)
    → before_edge n.sequence_id (edges_of ls) ≡ true
    → (it.order_update_id == 0) ≡ true
    → handle (at_actions (at_first it n ls) handling_initial [] [] c false [])
      ≡ yield_event clear_actions (
          at_actions
            (at_first it n ls)
            (first_state (is_empty ls || it.order_update_id == 0))
            []
            []
            c
            false
            [])
unfolding handle handle_initial first_state
initial_yields it n [] c b e = ground arith
initial_yields it n (l ∷ ls) c b e = ground arith

initial_skips :
    (it : EventIter) (n : Node) (ls : List Leg) (c : BlockingType)
    → before_edge n.sequence_id (edges_of ls) ≡ true
    → (it.order_update_id == 0) ≡ false
    → handle (at_actions (at_first it n ls) handling_initial [] [] c false [])
      ≡ skip (
          at_actions
            (at_first it n ls)
            (first_state (is_empty ls || it.order_update_id == 0))
            []
            []
            c
            false
            [])
unfolding handle handle_initial first_state
initial_skips it n [] c b e = ground arith
initial_skips it n (l ∷ ls) c b e = ground arith

initial_go :
    (it : EventIter) (n : Node) (ls : List Leg) (c : BlockingType)
    → before_edge n.sequence_id (edges_of ls) ≡ true
    → Goes
        (at_actions (at_first it n ls) handling_initial [] [] c false [])
        (opening it.order_update_id)
        (at_actions
          (at_first it n ls)
          (first_state (is_empty ls || it.order_update_id == 0))
          []
          []
          c
          false
          [])
initial_go it n ls c b = elim (Bool-cases (it.order_update_id == 0)) [
  | inl e ↦ Goes-events (ground arith) (yields (initial_yields it n ls c b e) here)
  | inr e ↦ Goes-events (ground arith) (skips (initial_skips it n ls c b e) here)
]

pub order_go :
    (it : EventIter) (n : Node) (base horizon : List Leg) (c : BlockingType) (h : Graph)
    → n.released ≡ true
    → before_edge n.sequence_id (edges_of (base ++ horizon)) ≡ true
    → All Released base
    → All Unreleased horizon
    → All Leads (base ++ horizon)
    → from_elements (node n ∷ elements_of (base ++ horizon)) ≡ ok h
    → let as' = first_actions n (base ++ horizon) it.order_update_id in
      (end : EventIter) × Goes
        (at_actions (at_first it n (base ++ horizon)) handling_initial [] [] c false [])
        (opening it.order_update_id
          ++ (map new_action as'
              ++ (leg_events base none (stops as') (groups as' [] c) (ceiling_after as' [] c)
                  ++ graph_event h it.order_id it.order_update_id ∷ [])))
        end
      × (handle end ≡ finished)
order_go it n base horizon c h r b rel unrel leads u =
    let all = base ++ horizon in
    let as' = first_actions n all it.order_update_id in
    let (g, p, q) = first_element n (elements_of all) h u in
    let (end, go, stop) =
      legs_go it base horizon g h none (ceiling_after as' [] c) (stops as') (groups as' [] c) rel
        unrel leads q in
    (
      end,
      Goes-append (initial_go it n all c b)
          (Goes-append (visit_go it n all g c (is_empty all || it.order_update_id == 0) r b p) go),
      stop,
    )
