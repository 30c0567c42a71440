-- ===== src/Interpreter/Handlers/Steps.antt =====
-- The handlers that go on from node to node, and those at the start and the end.
use libvda5050pp.Common.{
  ℕ, Bool, true, false, not, ◌&&◌, ◌||◌, none, some, List, [], ◌∷◌, invalid_argument, undefined,
  Result, ok, err, ◌>>=◌, is_empty, ltb, ◌==◌, if◌then◌else◌,
}
use libvda5050pp.Message.{Node, Edge}
use libvda5050pp.State.Graph.Element.{node, edge}
use libvda5050pp.State.Graph.Defs.{Graph, update, from_elements}
use libvda5050pp.Order.Scheduler.State.{navigation_step}
use libvda5050pp.Interpreter.Events.{clear_actions, queued, graph_extension, graph_replacement}
use libvda5050pp.Interpreter.Iter.{
  handling_pre_node_action, handling_pre_edge_action, handling_action_yield, handling_transition,
  pre_done, done, EventIter, Step, skip, yield_event, failed,
}

abbrev pub before_edge : ℕ → List Edge → Bool
before_edge seq [] = true
before_edge seq (e ∷ es) = ltb seq e.sequence_id

abbrev pub first_node_first : ℕ → List Edge → ℕ → Bool
first_node_first seq [] update_id = true
first_node_first seq (e ∷ es) update_id = ltb seq e.sequence_id && update_id == 0

unfoldable pub handle_initial : EventIter → Step
handle_initial it = elim it.nodes [
  | [] ↦ failed invalid_argument
  | n ∷ ns ↦
      let it' = record it {
        iter_state =
            if first_node_first n.sequence_id it.edges it.order_update_id
            then handling_pre_node_action
            else handling_transition;
      } in
      if it.order_update_id == 0 then yield_event clear_actions it' else skip it'
]

-- The loop over the horizon.
unfoldable pub skip_horizon : Graph → List Edge → List Node → Result (Graph × List Edge × List Node)
skip_horizon g [] ns = ok (g, [], ns)
skip_horizon g (e ∷ es) [] = ok (g, e ∷ es, [])
skip_horizon g (e ∷ es) (n ∷ ns) = do
  g₁ ← update g (edge e)
  g₂ ← update g₁ (node n)
  skip_horizon g₂ es ns

-- What follows a step of `handleTransition`.
unfoldable pub after_transition : EventIter → Step
after_transition it =
    if is_empty it.nodes && is_empty it.edges
    then skip (record it { iter_state = pre_done })
    else (if is_empty it.nodes || is_empty it.edges
        then failed invalid_argument
        else skip (record it { iter_state = handling_pre_edge_action }))

-- The step to a node over the edge before it.
unfoldable pub step_over : Node → List Node → Edge → List Edge → EventIter → Step
unfolding after_transition
step_over n ns e es it =
    if not e.released
    then elim it.collected_graph [
      | none ↦ failed undefined
      | some g ↦ elim (skip_horizon g (e ∷ es) (n ∷ ns)) [
        | err x ↦ failed x
        | ok r ↦
            after_transition (record it { collected_graph = some r.0; edges = r.1; nodes = r.2 })
      ]
    ]
    else (if not n.released then failed invalid_argument else elim it.collected_graph [
      | none ↦ failed undefined
      | some g ↦ elim (do g₁ ← update g (edge e); update g₁ (node n)) [
        | err x ↦ failed x
        | ok g₂ ↦ after_transition (record it {
          current_goal_node = some n;
          current_via_edge = some e;
          collected_graph = some g₂;
          edges = es;
          nodes = ns;
        })
      ]
    ])

-- The first node alone.
unfoldable pub step_first : Node → List Node → EventIter → Step
unfolding after_transition
step_first n ns it = elim (from_elements (node n ∷ [])) [
  | err x ↦ failed x
  | ok g ↦ after_transition (record it { collected_graph = some g; nodes = ns })
]

unfoldable pub handle_transition : EventIter → Step
unfolding step_first step_over
handle_transition it = elim it.nodes [
  | [] ↦ failed undefined
  | n ∷ ns ↦ elim it.edges [
    | [] ↦ step_first n ns it
    | e ∷ es ↦
        if ltb n.sequence_id e.sequence_id then step_first n ns it else step_over n ns e es it
  ]
]

unfoldable pub handle_navigation : EventIter → Step
handle_navigation it =
    let it' = record it { iter_state = handling_action_yield } in
    elim it.current_goal_node [
      | none ↦ elim it.current_via_edge [
        | none ↦ skip (record it' { stop_at_goal = false })
        | some e ↦ failed invalid_argument
      ]
      | some n ↦ elim it.current_via_edge [
        | none ↦ failed invalid_argument
        | some e ↦
            yield_event (queued (navigation_step n e it.stop_at_goal)) (record it' {
              current_goal_node = none;
              current_via_edge = none;
              stop_at_goal = false;
            })
      ]
    ]

-- Behind the last navigation step: the queued groups, and then the graph.
unfoldable pub handle_rest : EventIter → Step
handle_rest it = elim it.action_events_after_navigation [
  | e ∷ q ↦ yield_event (queued e) (record it { action_events_after_navigation = q })
  | [] ↦
      let it' = record it { iter_state = done } in
      if ltb 0 it.order_update_id
      then yield_event (graph_extension it.collected_graph it.order_update_id) it'
      else yield_event (graph_replacement it.collected_graph it.order_id) it'
]

unfoldable pub handle_pre_done : EventIter → Step
unfolding handle_rest
handle_pre_done it =
    if not (is_empty it.current_action_group)
    then failed invalid_argument
    else elim it.current_goal_node [
      | none ↦ handle_rest it
      | some n ↦ elim it.current_via_edge [
        | none ↦ handle_rest it
        | some e ↦
            yield_event (queued (navigation_step n e it.stop_at_goal)) (record it {
              current_goal_node = none;
              current_via_edge = none;
              stop_at_goal = false;
            })
      ]
    ]
