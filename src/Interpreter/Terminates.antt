-- ===== src/Interpreter/Terminates.antt =====
-- The end of the interpretation of any order.
use libvda5050pp.Common.{
  ℕ, ◌+◌, ◌≡◌, ◌≢◌, ap, ◌∙◌, ◌⊎◌, inl, inr, refl, arith, Bool, false, ◌||◌, Option, none, some,
  List, [], ◌∷◌, ◌++◌, ltb, ◌==◌, Error, Bool-cases, undefined,
}
use libvda5050pp.Message.{Node, Edge, Order, BlockingType}
use libvda5050pp.State.Graph.Defs.{Graph}
use libvda5050pp.Order.Scheduler.State.{QueueEvent}
use libvda5050pp.Interpreter.Events.{Event, clear_actions}
use libvda5050pp.Interpreter.Iter.{
  handling_initial, handling_pre_node_action, handling_node_action, handling_pre_edge_action,
  handling_edge_action, handling_action_yield, handling_navigation, handling_transition, EventIter,
  from_order,
}
use libvda5050pp.Interpreter.Handlers.{
  handle, handle_initial, handle_pre_edge_action, handle_pre_node_action, handle_navigation,
  handle_transition,
}
use libvda5050pp.Interpreter.Handlers.{first_node_first, interpret, all_events, aborted}
use libvda5050pp.Interpreter.Goes.{Goes, interpret_of_Goes, interpret_of_failure}
use libvda5050pp.Interpreter.Groups.{groups, stops, ceiling_after}
use libvda5050pp.Interpreter.Actions.{at_actions, edge-Cycle, node-Cycle}
use libvda5050pp.Interpreter.ActionRun.{actions_go}
use libvda5050pp.Interpreter.Legs.{queue_go}
use libvda5050pp.Interpreter.Total.{
  Ends, Ends-skip, Ends-yield, Ends-go, Ends-refused, AtNullGraph, at_point, Continues, first-Ends,
  over-Ends,
}

transition-Ends :
    (it : EventIter) (es : List Edge) (n : Node) (ns : List Node) (g : Option Graph)
    (goal : Option Node) (via : Option Edge) (c : BlockingType) (s : Bool) (q : List QueueEvent)
    → Continues ns
    → Ends (at_actions (at_point it es (n ∷ ns) g goal via) handling_transition [] [] c s q)
unfolding handle handle_transition
transition-Ends it [] n ns g goal via c s q k = first-Ends it [] n ns g goal via c s q k refl
transition-Ends it (e ∷ es) n ns g goal via c s q k =
    elim (Bool-cases (ltb n.sequence_id e.sequence_id)) [
      | inl l ↦ first-Ends it (e ∷ es) n ns g goal via c s q k (ground arith)
      | inr l ↦ over-Ends it e es n ns g goal via c s q k (ground arith)
    ]

no_nodes-Ends :
    (it : EventIter) (es : List Edge) (g : Option Graph) (goal : Option Node) (via : Option Edge)
    (c : BlockingType) (s : Bool) (q : List QueueEvent)
    → Ends (at_actions (at_point it es [] g goal via) handling_pre_node_action [] [] c s q)
unfolding handle handle_pre_node_action
no_nodes-Ends it es g goal via c s q = Ends-refused _ refl

node-Ends :
    (it : EventIter) (es : List Edge) (n : Node) (ns : List Node) (g : Option Graph)
    (goal : Option Node) (via : Option Edge) (c : BlockingType) (s : Bool) (q : List QueueEvent)
    → Continues ns
    → Ends (at_actions (at_point it es (n ∷ ns) g goal via) handling_pre_node_action [] [] c s q)
unfolding handle handle_pre_node_action
node-Ends it es n ns g goal via c s q k =
    let here = at_point it es (n ∷ ns) g goal via in
    elim (Bool-cases n.released) [
      | inr r ↦
          Ends-skip _ (at_actions here handling_transition [] [] c s q) (ground arith)
            (transition-Ends it es n ns g goal via c s q k)
      | inl r ↦
          Ends-skip _ (at_actions here handling_node_action n.actions [] c s q) (ground arith) (
            Ends-go _ _ _ (actions_go node-Cycle here n.actions [] c s q) (
              transition-Ends it es n ns g goal via (ceiling_after n.actions [] c)
                (s || stops n.actions) (q ++ groups n.actions [] c) k))
    ]

-- What comes behind the navigation.
queue-Ends :
    (it : EventIter) (es : List Edge) (ns : List Node) (g : Option Graph) (goal : Option Node)
    (via : Option Edge) (c : BlockingType) (s : Bool) (q : List QueueEvent)
    → ((c : BlockingType) (s : Bool) (q : List QueueEvent)
        → Ends (at_actions (at_point it es ns g goal via) handling_pre_node_action [] [] c s q))
    → Ends (at_actions (at_point it es ns g goal via) handling_action_yield [] [] c s q)
queue-Ends it es ns g goal via c s q k =
    Ends-go _ _ _ (queue_go (at_point it es ns g goal via) c s q) (k c s [])

navigation-Ends :
    (it : EventIter) (es : List Edge) (ns : List Node) (g : Option Graph) (goal : Option Node)
    (via : Option Edge) (c : BlockingType) (s : Bool) (q : List QueueEvent)
    → ((goal : Option Node) (via : Option Edge) (c : BlockingType) (s : Bool) (q : List QueueEvent)
        → Ends (at_actions (at_point it es ns g goal via) handling_pre_node_action [] [] c s q))
    → Ends (at_actions (at_point it es ns g goal via) handling_navigation [] [] c s q)
unfolding handle handle_navigation
navigation-Ends it es ns g none none c s q k =
    Ends-skip _ _ refl (queue-Ends it es ns g none none c false q (k none none))
navigation-Ends it es ns g none (some e) c s q k = Ends-refused _ refl
navigation-Ends it es ns g (some n) none c s q k = Ends-refused _ refl
navigation-Ends it es ns g (some n) (some e) c s q k =
    Ends-yield _ _ _ refl (queue-Ends it es ns g none none c false q (k none none))

-- A leg ends if what comes behind the navigation does.
leg-Ends :
    (it : EventIter) (es : List Edge) (ns : List Node) (g : Option Graph) (goal : Option Node)
    (via : Option Edge) (c : BlockingType) (s : Bool) (q : List QueueEvent)
    → ((goal : Option Node) (via : Option Edge) (c : BlockingType) (s : Bool) (q : List QueueEvent)
        → Ends (at_actions (at_point it es ns g goal via) handling_pre_node_action [] [] c s q))
    → Ends (at_actions (at_point it es ns g goal via) handling_pre_edge_action [] [] c s q)
unfolding handle handle_pre_edge_action
leg-Ends it [] ns g goal via c s q k = Ends-refused _ refl
leg-Ends it (e ∷ es) ns g goal via c s q k =
    let here = at_point it (e ∷ es) ns g goal via in
    elim (Bool-cases e.released) [
      | inr r ↦
          Ends-skip _ (at_actions here handling_navigation [] [] c s q) (ground arith)
            (navigation-Ends it (e ∷ es) ns g goal via c s q k)
      | inl r ↦
          Ends-skip _ (at_actions here handling_edge_action e.actions [] c s q) (ground arith) (
            Ends-go _ _ _ (actions_go edge-Cycle here e.actions [] c s q) (
              navigation-Ends it (e ∷ es) ns g goal via (ceiling_after e.actions [] c)
                (s || stops e.actions) (q ++ groups e.actions [] c) k))
    ]

legs_end : (ns : List Node) → Continues ns
legs_end [] = λ it es g goal via c s q.
    leg-Ends it es [] g goal via c s q (λ goal via c s q. no_nodes-Ends it es g goal via c s q)
legs_end (n ∷ ns) = λ it es g goal via c s q.
    leg-Ends it es (n ∷ ns) g goal via c s q
      (λ goal via c s q. node-Ends it es n ns g goal via c s q (legs_end ns))

order-Ends :
    (it : EventIter) (es : List Edge) (ns : List Node) (c : BlockingType)
    → Ends (at_actions (at_point it es ns none none none) handling_initial [] [] c false [])
unfolding handle handle_initial
order-Ends it es [] c = Ends-refused _ refl
order-Ends it es (n ∷ ns) c =
    let here = at_point it es (n ∷ ns) none none none in
    let visit = node-Ends it es n ns none none none c false [] (legs_end ns) in
    let pass = transition-Ends it es n ns none none none c false [] (legs_end ns) in
    elim (Bool-cases (first_node_first n.sequence_id es it.order_update_id)) [
      | inl v ↦ elim (Bool-cases (it.order_update_id == 0)) [
        | inl z ↦
            Ends-yield _ (at_actions here handling_pre_node_action [] [] c false []) clear_actions
              (ground arith) visit
        | inr z ↦
            Ends-skip _ (at_actions here handling_pre_node_action [] [] c false []) (ground arith)
              visit
      ]
      | inr v ↦ elim (Bool-cases (it.order_update_id == 0)) [
        | inl z ↦
            Ends-yield _ (at_actions here handling_transition [] [] c false []) clear_actions
              (ground arith) pass
        | inr z ↦
            Ends-skip _ (at_actions here handling_transition [] [] c false []) (ground arith) pass
      ]
    ]

undefined-cases : (x : Error) → (x ≡ undefined) ⊎ (x ≢ undefined)
undefined-cases x = ground arith

-- The interpretation of any order, malformed ones included, ends: there is an amount of fuel and of
-- rounds from which on it yields the same events, and either ends by itself, or by a throw, or, its
-- handlers having come to a transition without a graph, by the read of a null pointer.
pub interpret_ends :
    (uninitialised : BlockingType) (order : Order)
    → (f : ℕ) × (r : ℕ) × (es : List Event) × (((i j : ℕ)
          → interpret (f + i) (r + j) (from_order uninitialised order) ≡ (es, all_events))
        ⊎ ((x : Error) × (x ≢ undefined)
            × ((i j : ℕ)
                → interpret (f + i) (r + j) (from_order uninitialised order) ≡ (es, aborted x)))
        ⊎ ((it : EventIter) × Goes (from_order uninitialised order) es it
            × AtNullGraph it
            × ((i j : ℕ)
                → interpret (f + i) (r + j) (from_order uninitialised order)
                  ≡ (es, aborted undefined))))
unfolding from_order
interpret_ends c order =
    let it = from_order c order in
    let (es, end, go, stop) = order-Ends it order.edges order.nodes c in
    elim stop [
      | inl h ↦
          let (f, r, run) = interpret_of_Goes go h in
          (f, r, es, inl (λ i j. run (f + i) (r + j) (omega arith) (omega arith)))
      | inr (x, h, u) ↦
          let (f, r, run) = interpret_of_failure go h in
          elim (undefined-cases x) [
            | inl e ↦ (
              f,
              r,
              es,
              inr (
                  inr (
                    end,
                    go,
                    u e,
                    λ i j.
                        run (f + i) (r + j) (omega arith) (omega arith)
                        ∙ ap (λ y. (es, aborted y)) e,
                  )),
            )
            | inr n ↦
                (f, r, es, inr (inl (x, n, λ i j. run (f + i) (r + j) (omega arith) (omega arith))))
          ]
    ]
