-- ===== src/Interpreter/Transitions.antt =====
-- The transitions from node to node, and what is left behind the last one.
use libvda5050pp.Common.{Result-cases, inl, inr}
use libvda5050pp.Common.{
  ℕ, ◌≤◌, ◌≡◌, refl, ◌∙◌, arith, Bool, true, false, none, some, List, [], ◌∷◌, ◌++◌, map, ltb, ok,
}
use libvda5050pp.Message.{Node, Edge, BlockingType}
use libvda5050pp.State.Graph.Element.{GraphElement, node, edge}
use libvda5050pp.State.Graph.Defs.{Graph, update, update_all, from_elements}
use libvda5050pp.Order.Scheduler.State.{QueueEvent}
use libvda5050pp.Interpreter.Events.{queued}
use libvda5050pp.Interpreter.Iter.{handling_transition, pre_done, done, EventIter, skip}
use libvda5050pp.Interpreter.Handlers.{
  handle, handle_transition, handle_pre_done, handle_rest, step_first, step_over, skip_horizon,
  after_transition, before_edge,
}
use libvda5050pp.Interpreter.Goes.{Goes, here, yields}
use libvda5050pp.Interpreter.Actions.{at_actions}
use libvda5050pp.Interpreter.Expected.{
  Leg, Released, Unreleased, Leads, edges_of, nodes_of, elements_of, graph_event,
}
use libvda5050pp.Interpreter.Legs.{leg_state, at_legs, stepped}

ltb-later : (m n : ℕ) → m ≤ n → ltb n m ≡ false
ltb-later m n h = ground arith

pub update_all-cons :
    (g h : Graph) (e : GraphElement) (es : List GraphElement)
    → update_all g (e ∷ es) ≡ ok h
    → (g' : Graph) × (update g e ≡ ok g') × (update_all g' es ≡ ok h)
unfolding update_all
update_all-cons g h e es p = elim (Result-cases (update g e)) [
  | inl (g', q) ↦ (g', q, (ground arith))
  | inr (x, q) ↦ absurd (ground arith)
]

step_first-ok :
    (n : Node) (ns : List Node) (it : EventIter) (g : Graph)
    → from_elements (node n ∷ []) ≡ ok g
    → step_first n ns it ≡ after_transition (record it { collected_graph = some g; nodes = ns })
unfolding step_first
step_first-ok n ns it g u = ground arith

step_over-ok :
    (n : Node) (ns : List Node) (e : Edge) (es : List Edge) (it : EventIter) (g g₁ g₂ : Graph)
    → e.released ≡ true
    → n.released ≡ true
    → it.collected_graph ≡ some g
    → update g (edge e) ≡ ok g₁
    → update g₁ (node n) ≡ ok g₂
    → step_over n ns e es it
      ≡ after_transition (record it {
        current_goal_node = some n;
        current_via_edge = some e;
        collected_graph = some g₂;
        edges = es;
        nodes = ns;
      })
unfolding step_over
step_over-ok n ns e es it g g₁ g₂ r r' c u v = ground arith

step_over-horizon :
    (n : Node) (ns : List Node) (e : Edge) (es : List Edge) (it : EventIter) (g h : Graph)
    → e.released ≡ false
    → it.collected_graph ≡ some g
    → skip_horizon g (e ∷ es) (n ∷ ns) ≡ ok (h, [], [])
    → step_over n ns e es it
      ≡ after_transition (record it { collected_graph = some h; edges = []; nodes = [] })
unfolding step_over
step_over-horizon n ns e es it g h r c u = ground arith

transition-over :
    (n : Node) (ns : List Node) (e : Edge) (es : List Edge) (it : EventIter)
    → it.nodes ≡ n ∷ ns
    → it.edges ≡ e ∷ es
    → ltb n.sequence_id e.sequence_id ≡ false
    → handle_transition it ≡ step_over n ns e es it
unfolding handle_transition
transition-over n ns e es it p q r = ground arith

transition-first :
    (n : Node) (ns : List Node) (it : EventIter)
    → it.nodes ≡ n ∷ ns
    → before_edge n.sequence_id it.edges ≡ true
    → handle_transition it ≡ step_first n ns it
unfolding handle_transition
transition-first n ns it p q = ground arith

pub transition_go :
    (it : EventIter) (l : Leg) (ls : List Leg) (g g₁ g₂ : Graph) (c : BlockingType) (s : Bool)
    (q : List QueueEvent)
    → Released l
    → Leads l
    → update g (edge l.via) ≡ ok g₁
    → update g₁ (node l.goal) ≡ ok g₂
    → handle (at_actions (at_legs it (l ∷ ls) (some g) none) handling_transition [] [] c s q)
      ≡ skip (at_actions (at_legs it ls (some g₂) (some l)) (leg_state ls) [] [] c s q)
unfolding handle
transition_go it l ls g g₁ g₂ c s q r o u v =
    let e = ltb-later l.via.sequence_id l.goal.sequence_id o in
    let here : EventIter =
      at_actions (at_legs it (l ∷ ls) (some g) none) handling_transition [] [] c s q in
    transition-over l.goal (nodes_of ls) l.via (edges_of ls) here refl refl e
    ∙ step_over-ok l.goal (nodes_of ls) l.via (edges_of ls) here g g₁ g₂ r.0 r.1 refl u v
    ∙ stepped it ls (some g₂) (some l) c s q

skip-horizon :
    (g h : Graph) (ls : List Leg)
    → update_all g (elements_of ls) ≡ ok h
    → skip_horizon g (edges_of ls) (nodes_of ls) ≡ ok (h, [], [])
unfolding skip_horizon update_all
skip-horizon g h [] p = ground arith
skip-horizon g h (l ∷ ls) p =
    let (g₁, u, p₁) = update_all-cons g h (edge l.via) (node l.goal ∷ elements_of ls) p in
    let (g₂, v, p₂) = update_all-cons g₁ h (node l.goal) (elements_of ls) p₁ in
    let y = skip-horizon g₂ h ls p₂ in ground arith

pub horizon_transition :
    (it : EventIter) (l : Leg) (ls : List Leg) (g h : Graph) (c : BlockingType) (s : Bool)
    (q : List QueueEvent)
    → Unreleased l
    → Leads l
    → update_all g (elements_of (l ∷ ls)) ≡ ok h
    → handle (at_actions (at_legs it (l ∷ ls) (some g) none) handling_transition [] [] c s q)
      ≡ skip (at_actions (at_legs it [] (some h) none) pre_done [] [] c s q)
unfolding handle
horizon_transition it l ls g h c s q r o u =
    let e = ltb-later l.via.sequence_id l.goal.sequence_id o in
    let here : EventIter =
      at_actions (at_legs it (l ∷ ls) (some g) none) handling_transition [] [] c s q in
    transition-over l.goal (nodes_of ls) l.via (edges_of ls) here refl refl e
    ∙ step_over-horizon l.goal (nodes_of ls) l.via (edges_of ls) here g h r.0 refl
        (skip-horizon g h (l ∷ ls) u)
    ∙ stepped it [] (some h) none c s q

pub first_transition :
    (it : EventIter) (n : Node) (ls : List Leg) (g : Graph) (c : BlockingType) (s : Bool)
    (q : List QueueEvent)
    → before_edge n.sequence_id (edges_of ls) ≡ true
    → from_elements (node n ∷ []) ≡ ok g
    → handle (
        at_actions
          (record it {
            nodes = n ∷ nodes_of ls;
            edges = edges_of ls;
            current_goal_node = none;
            current_via_edge = none;
          })
          handling_transition
          []
          []
          c
          s
          q)
      ≡ skip (at_actions (at_legs it ls (some g) none) (leg_state ls) [] [] c s q)
unfolding handle
first_transition it n ls g c s q b u =
    let here : EventIter =
      at_actions
        (record it {
          nodes = n ∷ nodes_of ls;
          edges = edges_of ls;
          current_goal_node = none;
          current_via_edge = none;
        })
        handling_transition [] [] c s q in
    transition-first n (nodes_of ls) here refl b
    ∙ step_first-ok n (nodes_of ls) here g u
    ∙ stepped it ls (some g) none c s q

pub rest_go :
    (it : EventIter) (g : Graph) (c : BlockingType) (s : Bool) (q : List QueueEvent)
    → Goes
        (at_actions (at_legs it [] (some g) none) pre_done [] [] c s q)
        (map queued q ++ graph_event g it.order_id it.order_update_id ∷ [])
        (at_actions (at_legs it [] (some g) none) done [] [] c s [])
unfolding handle handle_pre_done handle_rest
rest_go it g c s [] = yields (ground arith) here
rest_go it g c s (e ∷ q) = yields refl (rest_go it g c s q)
