-- ===== src/Interpreter/EachOnce.antt =====
-- The actions and the legs among the events of an order.
use libvda5050pp.Common.{
  ℕ, ◌+◌, ◌≡◌, refl, ap, ◌∙◌, arith, Bool, String, Option, none, some, List, [], ◌∷◌, ◌++◌,
  append-nil, append_assoc,
}
use libvda5050pp.Message.{Action, Node, Order, BlockingType}
use libvda5050pp.State.Graph.Defs.{Graph}
use libvda5050pp.Order.Scheduler.State.{QueueEvent}
use libvda5050pp.Interpreter.Iter.{from_order}
use libvda5050pp.Interpreter.Handlers.{interpret}
use libvda5050pp.Interpreter.Groups.{groups, stops, ceiling_after}
use libvda5050pp.Interpreter.Expected.{
  Leg, OrderPath, navigation, leg_events, graph_event, opening, first_actions, order_events,
}
use libvda5050pp.Interpreter.Whole.{interpret_order}
use libvda5050pp.Interpreter.Account.{
  announced, grouped, driven, queue_of, actions_along, announced-append, queue_of-append,
  grouped-append, driven-append, announced-news, announced-queued, queue_of-news, queue_of-queued,
  grouped-groups, driven-groups,
}

pending_legs : Option Leg → List Leg
pending_legs none = []
pending_legs (some l) = l ∷ []

announced-navigation : (p : Option Leg) (s : Bool) → announced (navigation p s) ≡ []
unfolding announced
announced-navigation none s = refl
announced-navigation (some l) s = refl

grouped-navigation : (p : Option Leg) (s : Bool) → grouped (queue_of (navigation p s)) ≡ []
unfolding grouped queue_of
grouped-navigation none s = refl
grouped-navigation (some l) s = refl

driven-navigation :
    (p : Option Leg) (s : Bool) → driven (queue_of (navigation p s)) ≡ pending_legs p
unfolding driven queue_of pending_legs
driven-navigation none s = refl
driven-navigation (some l) s = refl

announced-leg_events :
    (ls : List Leg) (p : Option Leg) (s : Bool) (q : List QueueEvent) (c : BlockingType)
    → announced (leg_events ls p s q c) ≡ actions_along ls
unfolding leg_events actions_along
announced-leg_events [] p s q c = simp (announced-append, announced-navigation, announced-queued)
announced-leg_events (l ∷ ls) p s q c = simp (
  announced-append,
  announced-navigation,
  announced-queued,
  announced-news,
  announced-leg_events ls,
)

grouped-leg_events :
    (ls : List Leg) (p : Option Leg) (s : Bool) (q : List QueueEvent) (c : BlockingType)
    → grouped (queue_of (leg_events ls p s q c)) ≡ grouped q ++ actions_along ls
unfolding leg_events actions_along grouped
grouped-leg_events [] p s q c =
    simp (queue_of-append, grouped-append, grouped-navigation, queue_of-queued, append-nil)
grouped-leg_events (l ∷ ls) p s q c = simp (
  queue_of-append,
  grouped-append,
  grouped-navigation,
  queue_of-queued,
  queue_of-news,
  grouped-groups,
  append_assoc,
  grouped-leg_events ls,
)

driven-leg_events :
    (ls : List Leg) (p : Option Leg) (s : Bool) (q : List QueueEvent) (c : BlockingType)
    → driven q ≡ []
    → driven (queue_of (leg_events ls p s q c)) ≡ pending_legs p ++ ls
unfolding leg_events pending_legs driven
driven-leg_events [] p s q c h =
    simp (queue_of-append, driven-append, driven-navigation, queue_of-queued, h)
driven-leg_events (l ∷ ls) p s q c h =
    let after_edge = ceiling_after l.via.actions [] c in
    let rest =
      driven-leg_events ls (some l) (stops l.goal.actions) (groups l.goal.actions [] after_edge)
        (ceiling_after l.goal.actions [] after_edge) (driven-groups l.goal.actions [] after_edge) in
    simp (
      queue_of-append, driven-append, driven-navigation, queue_of-queued, queue_of-news,
      driven-groups, append_assoc, h, rest,
    )

announced-opening : (u : ℕ) → announced (opening u) ≡ []
unfolding announced
announced-opening u = ground arith

queue_of-opening : (u : ℕ) → queue_of (opening u) ≡ []
unfolding queue_of
queue_of-opening u = ground arith

announced-graph_event : (g : Graph) (o : String) (u : ℕ) → announced (graph_event g o u ∷ []) ≡ []
unfolding announced
announced-graph_event g o u = ground arith

queue_of-graph_event : (g : Graph) (o : String) (u : ℕ) → queue_of (graph_event g o u ∷ []) ≡ []
unfolding queue_of
queue_of-graph_event g o u = ground arith

module _ (c : BlockingType) (order : Order) (n : Node) (base all : List Leg) where
  met : List Action
  met = first_actions n all order.order_update_id ++ actions_along base

  announced-order_events : announced (order_events c order n base all) ≡ met
  unfolding order_events met
  announced-order_events = simp (
    announced-append, announced-opening, announced-news, announced-leg_events,
    announced-graph_event, append-nil,
  )

  pub queue_of-order_events :
      let as' = first_actions n all order.order_update_id in
      queue_of (order_events c order n base all)
      ≡ queue_of (leg_events base none (stops as') (groups as' [] c) (ceiling_after as' [] c))
  unfolding order_events
  queue_of-order_events =
      simp (queue_of-append, queue_of-opening, queue_of-news, queue_of-graph_event, append-nil)

  grouped-order_events : grouped (queue_of (order_events c order n base all)) ≡ met
  unfolding met
  grouped-order_events = simp (queue_of-order_events, grouped-leg_events, grouped-groups)

  driven-order_events : driven (queue_of (order_events c order n base all)) ≡ base
  unfolding pending_legs
  driven-order_events =
      let as' = first_actions n all order.order_update_id in
      ap driven queue_of-order_events
      ∙ driven-leg_events base none (stops as') (groups as' [] c) (ceiling_after as' [] c)
          (driven-groups as' [] c)

-- For every order that is a path, the events of an interpretation with enough fuel and rounds
-- announce every action of the base once, in the order of the path, queue the same actions in the
-- same order in groups, and queue a navigation step over each released leg once, in order. The
-- actions of the first node count unless the order is an update that leads on.
pub interpret_each_once :
    (uninitialised : BlockingType) (order : Order) (n : Node) (base horizon : List Leg)
    → OrderPath order n base horizon
    → (f : ℕ) × (r : ℕ) × ((i j : ℕ)
        → let es = (interpret (f + i) (r + j) (from_order uninitialised order)).0 in
          let met = first_actions n (base ++ horizon) order.order_update_id ++ actions_along base in
          (announced es ≡ met) × (grouped (queue_of es) ≡ met) × (driven (queue_of es) ≡ base))
unfolding met
interpret_each_once c order n base horizon path =
    let (f, r, run) = interpret_order c order n base horizon path in
    (
      f,
      r,
      λ i j.
          let es = ap (λ x. x.0) (run i j) in
          let all = base ++ horizon in
          (
            ap announced es ∙ announced-order_events c order n base all,
            ap (λ x. grouped (queue_of x)) es ∙ grouped-order_events c order n base all,
            ap (λ x. driven (queue_of x)) es ∙ driven-order_events c order n base all,
          ),
    )
