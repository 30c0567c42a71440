-- ===== src/Interpreter/Total.antt =====
-- How the handlers come to an end on any order, malformed ones included.
use libvda5050pp.Common.{
  invalid_argument, undefined, ◌≡◌, ◌⊎◌, inl, inr, refl, arith, Bool, true, false, ◌||◌, Option,
  none, some, List, [], ◌∷◌, ◌++◌, is_empty, ltb, ok, err, Error, Result-cases, Bool-cases,
}
use libvda5050pp.Message.{Node, Edge, BlockingType}
use libvda5050pp.State.Graph.Element.{GraphElement, node, edge}
use libvda5050pp.State.Graph.Defs.{Graph, update, update_all, from_elements}
use libvda5050pp.Order.Scheduler.State.{QueueEvent}
use libvda5050pp.Interpreter.Events.{Event, graph_extension, graph_replacement}
use libvda5050pp.Interpreter.Iter.{
  handling_pre_edge_action, handling_transition, pre_done, done, EventIter, skip, yield_event,
  finished, failed,
}
use libvda5050pp.Interpreter.Handlers.{
  handle, handle_pre_done, handle_rest, step_first, step_over, skip_horizon, after_transition,
}
use libvda5050pp.Interpreter.Goes.{Goes, here, skips, yields, Goes-append}
use libvda5050pp.Interpreter.Actions.{at_actions}

-- `handleTransition` reads the graph through a null pointer.
abbrev pub AtNullGraph : EventIter → Type 0
AtNullGraph it = (it.iter_state ≡ handling_transition) × (it.collected_graph ≡ none)

-- The handlers come to the end, to a throw, or to that read.
abbrev pub Ends : EventIter → Type 0
Ends it =
    (es : List Event) × (end : EventIter) × Goes it es end
    × ((handle end ≡ finished)
        ⊎ ((x : Error) × (handle end ≡ failed x) × (x ≡ undefined → AtNullGraph end)))

pub Ends-skip : (it it' : EventIter) → handle it ≡ skip it' → Ends it' → Ends it
Ends-skip it it' h (es, end, go, stop) = (es, end, skips h go, stop)

pub Ends-yield :
    (it it' : EventIter) (e : Event) → handle it ≡ yield_event e it' → Ends it' → Ends it
Ends-yield it it' e h (es, end, go, stop) = (e ∷ es, end, yields h go, stop)

pub Ends-go : (it it' : EventIter) (es : List Event) → Goes it es it' → Ends it' → Ends it
Ends-go it it' es g (fs, end, go, stop) = (es ++ fs, end, Goes-append g go, stop)

pub Ends-failed :
    (it : EventIter) (x : Error) → handle it ≡ failed x → (x ≡ undefined → AtNullGraph it) → Ends it
Ends-failed it x h u = ([], it, here, inr (x, h, u))

pub Ends-refused : (it : EventIter) → handle it ≡ failed invalid_argument → Ends it
Ends-refused it h = Ends-failed it invalid_argument h (λ p. absurd (ground arith))

-- A graph refuses an element by an exception of its own.
update-refused : (g : Graph) (e : GraphElement) (x : Error) → update g e ≡ err x → x ≡ undefined → ⊥
unfolding update
update-refused g e x h u = ground arith

one_element-refused :
    (e : GraphElement) (x : Error) → from_elements (e ∷ []) ≡ err x → x ≡ undefined → ⊥
unfolding from_elements update_all update
one_element-refused e x h u = ground arith

-- An iterator with the elements that it has yet to visit, its graph and its pending goal.
abbrev pub at_point :
    EventIter → List Edge → List Node → Option Graph → Option Node → Option Edge → EventIter
at_point it es ns g goal via = record it {
  edges = es;
  nodes = ns;
  collected_graph = g;
  current_goal_node = goal;
  current_via_edge = via;
}

abbrev PreDoneEnds :
    EventIter → List Edge → List Node → Option Graph → Option Node → Option Edge → Type 0
PreDoneEnds it es ns g goal via =
    (c : BlockingType) (s : Bool) (q : List QueueEvent)
    → Ends (at_actions (at_point it es ns g goal via) pre_done [] [] c s q)

done-Ends : (it : EventIter) → it.iter_state ≡ done → Ends it
unfolding handle
done-Ends it h = ([], it, here, inl (ground arith))

rest_ends :
    (it : EventIter) (es : List Edge) (ns : List Node) (g : Option Graph) (via : Option Edge)
    → PreDoneEnds it es ns g none via
unfolding handle handle_pre_done handle_rest
rest_ends it es ns g via c s [] =
    let end : EventIter = at_actions (at_point it es ns g none via) done [] [] c s [] in
    elim (Bool-cases (ltb 0 it.order_update_id)) [
      | inl e ↦
          Ends-yield _ end (graph_extension g it.order_update_id) (ground arith)
            (done-Ends end refl)
      | inr e ↦
          Ends-yield _ end (graph_replacement g it.order_id) (ground arith) (done-Ends end refl)
    ]
rest_ends it es ns g via c s (e ∷ q) = Ends-yield _ _ _ refl (rest_ends it es ns g via c s q)

goal_rest_ends :
    (it : EventIter) (es : List Edge) (ns : List Node) (g : Option Graph) (n : Node)
    → PreDoneEnds it es ns g (some n) none
unfolding handle handle_pre_done handle_rest
goal_rest_ends it es ns g n c s [] =
    let end : EventIter = at_actions (at_point it es ns g (some n) none) done [] [] c s [] in
    elim (Bool-cases (ltb 0 it.order_update_id)) [
      | inl e ↦
          Ends-yield _ end (graph_extension g it.order_update_id) (ground arith)
            (done-Ends end refl)
      | inr e ↦
          Ends-yield _ end (graph_replacement g it.order_id) (ground arith) (done-Ends end refl)
    ]
goal_rest_ends it es ns g n c s (e ∷ q) = Ends-yield _ _ _ refl (goal_rest_ends it es ns g n c s q)

pre_done_ends :
    (it : EventIter) (es : List Edge) (ns : List Node) (g : Option Graph) (goal : Option Node)
    (via : Option Edge)
    → PreDoneEnds it es ns g goal via
unfolding handle handle_pre_done
pre_done_ends it es ns g none via c s q = rest_ends it es ns g via c s q
pre_done_ends it es ns g (some n) none c s q = goal_rest_ends it es ns g n c s q
pre_done_ends it es ns g (some n) (some e) c s q =
    Ends-yield _ _ _ refl (rest_ends it es ns g none c false q)

-- From the handling of an edge on, with some nodes left.
abbrev pub Continues : List Node → Type 0
Continues ns =
    (it : EventIter) (es : List Edge) (g : Option Graph) (goal : Option Node) (via : Option Edge)
    (c : BlockingType) (s : Bool) (q : List QueueEvent)
    → Ends (at_actions (at_point it es ns g goal via) handling_pre_edge_action [] [] c s q)

after-Ends :
    (from it : EventIter) (es : List Edge) (ns : List Node) (g : Option Graph) (goal : Option Node)
    (via : Option Edge) (c : BlockingType) (s : Bool) (q : List QueueEvent)
    → handle from
      ≡ after_transition (at_actions (at_point it es ns g goal via) handling_transition [] [] c s q)
    → ((is_empty es || is_empty ns) ≡ true) ⊎ Continues ns
    → Ends from
unfolding after_transition
after-Ends from it [] [] g goal via c s q h k =
    Ends-skip from _ h (pre_done_ends it [] [] g goal via c s q)
after-Ends from it [] (n ∷ ns) g goal via c s q h k = Ends-refused from h
after-Ends from it (e ∷ es) [] g goal via c s q h k = Ends-refused from h
after-Ends from it (e ∷ es) (n ∷ ns) g goal via c s q h (inl empty) = absurd (ground arith)
after-Ends from it (e ∷ es) (n ∷ ns) g goal via c s q h (inr k) =
    Ends-skip from _ h (k it (e ∷ es) g goal via c s q)

skip_horizon-refused :
    (g : Graph) (es : List Edge) (ns : List Node) (x : Error)
    → skip_horizon g es ns ≡ err x
    → x ≡ undefined
    → ⊥
unfolding skip_horizon
skip_horizon-refused g [] ns x h u = ground arith
skip_horizon-refused g (e ∷ es) [] x h u = ground arith
skip_horizon-refused g (e ∷ es) (n ∷ ns) x h u = elim (Result-cases (update g (edge e))) [
  | inr (y, p) ↦ update-refused g (edge e) y p (ground arith)
  | inl (g₁, p) ↦ elim (Result-cases (update g₁ (node n))) [
    | inr (y, p') ↦ update-refused g₁ (node n) y p' (ground arith)
    | inl (g₂, p') ↦ skip_horizon-refused g₂ es ns x (ground arith) u
  ]
]

skip_horizon-stops :
    (g : Graph) (es : List Edge) (ns : List Node) (r : Graph × List Edge × List Node)
    → skip_horizon g es ns ≡ ok r
    → (is_empty r.1 || is_empty r.2) ≡ true
unfolding skip_horizon
skip_horizon-stops g [] ns r h = ground arith
skip_horizon-stops g (e ∷ es) [] r h = ground arith
skip_horizon-stops g (e ∷ es) (n ∷ ns) r h = elim (Result-cases (update g (edge e))) [
  | inr (x, p) ↦ absurd (ground arith)
  | inl (g₁, p) ↦ elim (Result-cases (update g₁ (node n))) [
    | inr (x, p') ↦ absurd (ground arith)
    | inl (g₂, p') ↦ skip_horizon-stops g₂ es ns r (ground arith)
  ]
]

pub first-Ends :
    (it : EventIter) (es : List Edge) (n : Node) (ns : List Node) (g : Option Graph)
    (goal : Option Node) (via : Option Edge) (c : BlockingType) (s : Bool) (q : List QueueEvent)
    → Continues ns
    → handle (at_actions (at_point it es (n ∷ ns) g goal via) handling_transition [] [] c s q)
      ≡ step_first n ns
          (at_actions (at_point it es (n ∷ ns) g goal via) handling_transition [] [] c s q)
    → Ends (at_actions (at_point it es (n ∷ ns) g goal via) handling_transition [] [] c s q)
unfolding step_first
first-Ends it es n ns g goal via c s q k h = elim (Result-cases (from_elements (node n ∷ []))) [
  | inr (x, p) ↦ Ends-failed _ x (ground arith) (λ u. absurd (one_element-refused (node n) x p u))
  | inl (g₁, p) ↦ after-Ends _ it es ns (some g₁) goal via c s q (ground arith) (inr k)
]

pub over-Ends :
    (it : EventIter) (e : Edge) (es : List Edge) (n : Node) (ns : List Node) (g : Option Graph)
    (goal : Option Node) (via : Option Edge) (c : BlockingType) (s : Bool) (q : List QueueEvent)
    → Continues ns
    → handle (at_actions (at_point it (e ∷ es) (n ∷ ns) g goal via) handling_transition [] [] c s q)
      ≡ step_over n ns e es
          (at_actions (at_point it (e ∷ es) (n ∷ ns) g goal via) handling_transition [] [] c s q)
    → Ends (at_actions (at_point it (e ∷ es) (n ∷ ns) g goal via) handling_transition [] [] c s q)
unfolding step_over
over-Ends it e es n ns none goal via c s q k h = elim (Bool-cases e.released) [
  | inr r ↦ Ends-failed _ undefined (ground arith) (λ u. (refl, refl))
  | inl r ↦ elim (Bool-cases n.released) [
    | inr r' ↦ Ends-refused _ (ground arith)
    | inl r' ↦ Ends-failed _ undefined (ground arith) (λ u. (refl, refl))
  ]
]
over-Ends it e es n ns (some g) goal via c s q k h = elim (Bool-cases e.released) [
  | inr r ↦ elim (Result-cases (skip_horizon g (e ∷ es) (n ∷ ns))) [
    | inr (x, p) ↦
        Ends-failed _ x (ground arith)
          (λ u. absurd (skip_horizon-refused g (e ∷ es) (n ∷ ns) x p u))
    | inl (t, p) ↦
        after-Ends _ it t.1 t.2 (some t.0) goal via c s q (ground arith)
          (inl (skip_horizon-stops g (e ∷ es) (n ∷ ns) t p))
  ]
  | inl r ↦ elim (Bool-cases n.released) [
    | inr r' ↦ Ends-refused _ (ground arith)
    | inl r' ↦ elim (Result-cases (update g (edge e))) [
      | inr (x, p) ↦ Ends-failed _ x (ground arith) (λ u. absurd (update-refused g (edge e) x p u))
      | inl (g₁, p) ↦ elim (Result-cases (update g₁ (node n))) [
        | inr (x, p') ↦
            Ends-failed _ x (ground arith) (λ u. absurd (update-refused g₁ (node n) x p' u))
        | inl (g₂, p') ↦
            after-Ends _ it es ns (some g₂) (some n) (some e) c s q (ground arith) (inr k)
      ]
    ]
  ]
]
