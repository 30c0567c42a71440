-- ===== src/Validation/Asked.antt =====
-- What the AGV is asked about the actions of an order.
use libvda5050pp.Common.{◌≡◌, refl, Bool, some, List, [], ◌∷◌, ◌++◌, map, All, ok}
use libvda5050pp.Message.{Action, Node, Edge, Order}
use libvda5050pp.Checks.Actions.Declaration.{ActionContext, node_context, edge_context}
use libvda5050pp.Checks.Actions.Unique.{node_actions, edge_actions, order_actions}
use libvda5050pp.Validation.Handler.{
  ActionValidate, Agv, action_validates, ask_actions, ask_nodes, ask_edges,
}

asked_append :
    (vs ws : List ActionValidate)
    → map (λ v. v.action) (vs ++ ws) ≡ map (λ v. v.action) vs ++ map (λ v. v.action) ws
asked_append [] ws = refl
asked_append (v ∷ vs) ws = rw (asked_append vs ws)

actions_asked :
    (context : ActionContext) (keep : Bool) (as' : List Action)
    → map (λ v. v.action) (ask_actions context keep as') ≡ as'
actions_asked context keep [] = refl
actions_asked context keep (a ∷ as') = rw (actions_asked context keep as')

nodes_asked : (ns : List Node) → map (λ v. v.action) (ask_nodes ns) ≡ node_actions ns
unfolding node_actions
nodes_asked [] = refl
nodes_asked (n ∷ ns) =
    rw asked_append (rw (actions_asked node_context n.released n.actions) (rw (nodes_asked ns)))

edges_asked : (es : List Edge) → map (λ v. v.action) (ask_edges es) ≡ edge_actions es
unfolding edge_actions
edges_asked [] = refl
edges_asked (e ∷ es) =
    rw asked_append (rw (actions_asked edge_context e.released e.actions) (rw (edges_asked es)))

pub order_asked :
    (order : Order) → map (λ v. v.action) (action_validates order) ≡ order_actions order
unfolding action_validates order_actions
order_asked order = rw asked_append (rw (nodes_asked order.nodes) (rw (edges_asked order.edges)))

module _ {E : Type 0} (agv : Agv E) where
  abbrev pub Accepted : List ActionValidate → Type 0
  Accepted vs = All (λ (v : ActionValidate). agv.validate v ≡ some (ok [])) vs

  -- Asked about each of the actions, the AGV reports no error.
  abbrev pub AgvAccepts : ActionContext → Bool → List Action → Type 0
  AgvAccepts context keep as' =
      All
        (λ (a : Action).
          agv.validate (record { action = a; context = context; keep = keep }) ≡ some (ok []))
        as'

  Accepted-append : (vs ws : List ActionValidate) → Accepted (vs ++ ws) → Accepted vs × Accepted ws
  Accepted-append [] ws h = (tt, h)
  Accepted-append (v ∷ vs) ws h = let (p, q) = Accepted-append vs ws h.1 in ((h.0, p), q)

  actions-Accepted :
      (context : ActionContext) (keep : Bool) (as' : List Action)
      → Accepted (ask_actions context keep as')
      → AgvAccepts context keep as'
  actions-Accepted context keep [] h = tt
  actions-Accepted context keep (a ∷ as') h = (h.0, actions-Accepted context keep as' h.1)

  nodes-Accepted :
      (ns : List Node)
      → Accepted (ask_nodes ns)
      → All (λ (n : Node). AgvAccepts node_context n.released n.actions) ns
  nodes-Accepted [] h = tt
  nodes-Accepted (n ∷ ns) h =
      let (p, q) =
        Accepted-append (ask_actions node_context n.released n.actions) (ask_nodes ns) h in
      (actions-Accepted node_context n.released n.actions p, nodes-Accepted ns q)

  edges-Accepted :
      (es : List Edge)
      → Accepted (ask_edges es)
      → All (λ (e : Edge). AgvAccepts edge_context e.released e.actions) es
  edges-Accepted [] h = tt
  edges-Accepted (e ∷ es) h =
      let (p, q) =
        Accepted-append (ask_actions edge_context e.released e.actions) (ask_edges es) h in
      (actions-Accepted edge_context e.released e.actions p, edges-Accepted es q)

  pub order-Accepted :
      (order : Order)
      → Accepted (action_validates order)
      → All (λ (n : Node). AgvAccepts node_context n.released n.actions) order.nodes
        × All (λ (e : Edge). AgvAccepts edge_context e.released e.actions) order.edges
  unfolding action_validates
  order-Accepted order h =
      let (p, q) = Accepted-append (ask_nodes order.nodes) (ask_edges order.edges) h in
      (nodes-Accepted order.nodes p, edges-Accepted order.edges q)
