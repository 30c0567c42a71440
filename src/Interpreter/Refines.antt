-- ===== src/Interpreter/Refines.antt =====
-- How the handlers go from the first node to the end.
use libvda5050pp.Common.{
  ◌≡◌, refl, sym, ap, ◌∙◌, subst, arith, Bool, false, ◌||◌, Option, none, some, List, [], ◌∷◌, ◌++◌,
  map, append_assoc, ok, All,
}
use libvda5050pp.Message.{BlockingType}
use libvda5050pp.State.Graph.Element.{node, edge}
use libvda5050pp.State.Graph.Defs.{Graph, update, update_all}
use libvda5050pp.Order.Scheduler.State.{QueueEvent}
use libvda5050pp.Interpreter.Events.{Event, new_action, queued}
use libvda5050pp.Interpreter.Iter.{handling_pre_edge_action, pre_done, EventIter, finished}
use libvda5050pp.Interpreter.Handlers.{handle, handle_pre_done}
use libvda5050pp.Interpreter.Goes.{Goes, skips, yields, Goes-append}
use libvda5050pp.Interpreter.Groups.{groups, stops, ceiling_after}
use libvda5050pp.Interpreter.Actions.{at_actions, edge-Cycle, node-Cycle}
use libvda5050pp.Interpreter.ActionRun.{actions_go}
use libvda5050pp.Interpreter.Expected.{
  Leg, Released, Unreleased, Leads, elements_of, navigation, leg_events, graph_event,
}
use libvda5050pp.Interpreter.Legs.{
  leg_state, at_legs, navigation_go, queue_go, edge_go, horizon_edge, node_go, horizon_node,
}
use libvda5050pp.Interpreter.Transitions.{
  transition_go, horizon_transition, rest_go, update_all-cons,
}

pub Goes-events :
    {it it' : EventIter} {es fs : List Event} → es ≡ fs → Goes it es it' → Goes it fs it'
Goes-events {it} {it'} p g = subst (λ es. Goes it es it') p g

leg_go :
    (it : EventIter) (l : Leg) (ls : List Leg) (g g₁ g₂ : Graph) (p : Option Leg) (c : BlockingType)
    (s : Bool) (q : List QueueEvent) (fs : List Event) (end : EventIter)
    → Released l
    → Leads l
    → update g (edge l.via) ≡ ok g₁
    → update g₁ (node l.goal) ≡ ok g₂
    → Goes
        (at_actions
          (at_legs it ls (some g₂) (some l))
          (leg_state ls)
          []
          []
          (ceiling_after l.goal.actions [] (ceiling_after l.via.actions [] c))
          (stops l.goal.actions)
          (groups l.goal.actions [] (ceiling_after l.via.actions [] c)))
        fs
        end
    → Goes
        (at_actions (at_legs it (l ∷ ls) (some g) p) handling_pre_edge_action [] [] c s q)
        (map new_action l.via.actions
          ++ (navigation p (s || stops l.via.actions)
              ++ (map queued (q ++ groups l.via.actions [] c)
                  ++ (map new_action l.goal.actions ++ fs))))
        end
leg_go it l ls g g₁ g₂ p c s q fs end r o u v rest =
    let c' = ceiling_after l.via.actions [] c in
    let s' = s || stops l.via.actions in
    let q' = q ++ groups l.via.actions [] c in
    skips (edge_go it l ls (some g) p c s q r.0) (
      Goes-append (actions_go edge-Cycle (at_legs it (l ∷ ls) (some g) p) l.via.actions [] c s q) (
        Goes-append (navigation_go it (l ∷ ls) (some g) p c' s' q') (
          Goes-append (queue_go (at_legs it (l ∷ ls) (some g) none) c' false q') (
            skips (node_go it l ls (some g) none c' false [] r.1) (
              Goes-append
                (actions_go node-Cycle (at_legs it (l ∷ ls) (some g) none) l.goal.actions [] c'
                  false [])
                (skips
                  (transition_go it l ls g g₁ g₂ (ceiling_after l.goal.actions [] c')
                    (stops l.goal.actions) (groups l.goal.actions [] c') r o u v)
                  rest))))))

end_go :
    (it : EventIter) (g : Graph) (p : Option Leg) (c : BlockingType) (s : Bool)
    (q : List QueueEvent)
    → (end : EventIter) × Goes
        (at_actions (at_legs it [] (some g) p) pre_done [] [] c s q)
        (navigation p s ++ (map queued q ++ graph_event g it.order_id it.order_update_id ∷ []))
        end
      × (handle end ≡ finished)
unfolding handle handle_pre_done
end_go it g none c s q = (_, rest_go it g c s q, refl)
end_go it g (some l) c s q = (_, yields refl (rest_go it g c false q), refl)

horizon_go :
    (it : EventIter) (l : Leg) (ls : List Leg) (g h : Graph) (p : Option Leg) (c : BlockingType)
    (s : Bool) (q : List QueueEvent)
    → Unreleased l
    → Leads l
    → update_all g (elements_of (l ∷ ls)) ≡ ok h
    → (end : EventIter) × Goes
        (at_actions (at_legs it (l ∷ ls) (some g) p) handling_pre_edge_action [] [] c s q)
        (navigation p s ++ (map queued q ++ graph_event h it.order_id it.order_update_id ∷ []))
        end
      × (handle end ≡ finished)
horizon_go it l ls g h p c s q r o u =
    let (end, go, stop) = end_go it h none c false [] in
    (
      end,
      skips (horizon_edge it l ls (some g) p c s q r.0) (
          Goes-append (navigation_go it (l ∷ ls) (some g) p c s q) (
            Goes-append (queue_go (at_legs it (l ∷ ls) (some g) none) c false q) (
              skips (horizon_node it l ls (some g) none c false [] r.1)
                (skips (horizon_transition it l ls g h c false [] r o u) go)))),
      stop,
    )

append_assoc5 :
    (as' bs cs ds es fs : List Event)
    → as' ++ (bs ++ (cs ++ (ds ++ (es ++ fs)))) ≡ (as' ++ (bs ++ (cs ++ (ds ++ es)))) ++ fs
append_assoc5 as' bs cs ds es fs = sym (
    append_assoc as' _ fs
    ∙ ap (λ x. as' ++ x)
        (append_assoc bs _ fs
          ∙ ap (λ x. bs ++ x) (append_assoc cs _ fs ∙ ap (λ x. cs ++ x) (append_assoc ds es fs))))

pub legs_go :
    (it : EventIter) (base horizon : List Leg) (g h : Graph) (p : Option Leg) (c : BlockingType)
    (s : Bool) (q : List QueueEvent)
    → All Released base
    → All Unreleased horizon
    → All Leads (base ++ horizon)
    → update_all g (elements_of (base ++ horizon)) ≡ ok h
    → (end : EventIter) × Goes
        (at_actions
          (at_legs it (base ++ horizon) (some g) p)
          (leg_state (base ++ horizon))
          []
          []
          c
          s
          q)
        (leg_events base p s q c ++ graph_event h it.order_id it.order_update_id ∷ [])
        end
      × (handle end ≡ finished)
unfolding leg_events update_all
legs_go it [] [] g h p c s q rel unrel leads u =
    let (end, go, stop) = end_go it g p c s q in
    let same : g ≡ h = ground arith in
    (
      end,
      Goes-events
          (sym (append_assoc (navigation p s) (map queued q) _)
            ∙ ap
                (λ x.
                  (navigation p s ++ map queued q)
                  ++ graph_event x it.order_id it.order_update_id ∷ [])
                same)
          go,
      stop,
    )
legs_go it [] (l ∷ ls) g h p c s q rel unrel leads u =
    let (end, go, stop) = horizon_go it l ls g h p c s q unrel.0 leads.0 u in
    (end, Goes-events (sym (append_assoc (navigation p s) (map queued q) _)) go, stop)
legs_go it (l ∷ ls) horizon g h p c s q rel unrel leads u =
    let (g₁, u₁, v₁) =
      update_all-cons g h (edge l.via) (node l.goal ∷ elements_of (ls ++ horizon)) u in
    let (g₂, u₂, v₂) = update_all-cons g₁ h (node l.goal) (elements_of (ls ++ horizon)) v₁ in
    let c' = ceiling_after l.via.actions [] c in
    let (end, go, stop) =
      legs_go it ls horizon g₂ h (some l) (ceiling_after l.goal.actions [] c')
        (stops l.goal.actions) (groups l.goal.actions [] c') rel.1 unrel leads.1 v₂ in
    (
      end,
      Goes-events
          (append_assoc5 (map new_action l.via.actions) (navigation p (s || stops l.via.actions))
            (map queued (q ++ groups l.via.actions [] c)) (map new_action l.goal.actions) _ _)
          (leg_go it l (ls ++ horizon) g g₁ g₂ p c s q _ end rel.0 leads.0 u₁ u₂ go),
      stop,
    )
