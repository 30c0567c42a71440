-- ===== src/Checks/Actions/Unique.antt =====
-- Which orders pass the check of action ids, and what the order manager makes of their actions.
use text.Mathlib.TextEquality.{eq_iff}
use libvda5050pp.Common.{
  ◌≡◌, ◌≢◌, ◌↔◌, refl, sym, ap, ◌∙◌, arith, String, false, Option, none, List, [], ◌∷◌, ◌++◌, subst,
  append_assoc, All, Bool-cases, Option-cases, inl, inr,
}
use libvda5050pp.Message.{Action, Node, Edge, Order}
use libvda5050pp.Checks.Actions.Ids.{
  IdError, seen_id, unique_action_id, check_actions, check_node_actions, check_edge_actions,
  check_order_action_ids,
}

-- The actions of the nodes, and behind them those of the edges.
unfoldable pub node_actions : List Node → List Action
node_actions [] = []
node_actions (n ∷ ns) = n.actions ++ node_actions ns

unfoldable pub edge_actions : List Edge → List Action
edge_actions [] = []
edge_actions (e ∷ es) = e.actions ++ edge_actions es

-- No two of the actions have the same id.
abbrev pub DistinctIds : List Action → Type 0
DistinctIds [] = Unit
DistinctIds (a ∷ as') = All (λ (b : Action). b.action_id ≢ a.action_id) as' × DistinctIds as'

append-nil_split : (es fs : List IdError) → es ++ fs ≡ [] → (es ≡ []) × (fs ≡ [])
append-nil_split [] fs h = (refl, h)
append-nil_split (e ∷ es) fs h = absurd (ground arith)

-- None of the actions is known by its id.
abbrev pub Unknown : (String → Option Action) → List Action → Type 0
Unknown known as' = All (λ (a : Action). known a.action_id ≡ none) as'

abbrev Unseen : List String → List Action → Type 0
Unseen seen as' = All (λ (a : Action). seen_id a.action_id seen ≡ false) as'

unique_action_id-nil :
    (known : String → Option Action) (a : Action) (seen : List String)
    → (unique_action_id known a seen).0 ≡ []
    → (seen_id a.action_id seen ≡ false)
      × (known a.action_id ≡ none)
      × ((unique_action_id known a seen).1 ≡ a.action_id ∷ seen)
unfolding unique_action_id
unique_action_id-nil known a seen h = elim (Bool-cases (seen_id a.action_id seen)) [
  | inl e ↦ absurd (ground arith)
  | inr e ↦ elim (Option-cases (known a.action_id)) [
    | inl k ↦ (e, k, ground arith)
    | inr (b, k) ↦ absurd (ground arith)
  ]
]

unique_action_id-ok :
    (known : String → Option Action) (a : Action) (seen : List String)
    → seen_id a.action_id seen ≡ false
    → known a.action_id ≡ none
    → unique_action_id known a seen ≡ ([], a.action_id ∷ seen)
unfolding unique_action_id
unique_action_id-ok known a seen h k = ground arith

Unseen-split :
    (id : String) (seen : List String) (as' : List Action)
    → Unseen (id ∷ seen) as'
    → Unseen seen as' × All (λ (b : Action). b.action_id ≢ id) as'
unfolding seen_id
Unseen-split id seen [] u = (tt, tt)
Unseen-split id seen (b ∷ as') u =
    let (v, w) = Unseen-split id seen as' u.1 in
    let h = u.0 in
    ((ground (arith, eq_iff b.action_id id), v), ((λ p. ground (arith, eq_iff b.action_id id)), w))

Unseen-join :
    (id : String) (seen : List String) (as' : List Action)
    → Unseen seen as'
    → All (λ (b : Action). b.action_id ≢ id) as'
    → Unseen (id ∷ seen) as'
unfolding seen_id
Unseen-join id seen [] u d = tt
Unseen-join id seen (b ∷ as') u d =
    let h = u.0 in
    let k = d.0 in (ground (arith, eq_iff b.action_id id), Unseen-join id seen as' u.1 d.1)

pub check_actions-nil :
    (known : String → Option Action) (as' : List Action) (seen : List String)
    → (check_actions known as' seen).0 ≡ []
    → Unseen seen as' × Unknown known as' × DistinctIds as'
unfolding check_actions
check_actions-nil known [] seen h = (tt, tt, tt)
check_actions-nil known (a ∷ as') seen h =
    let (p, q) = append-nil_split (unique_action_id known a seen).0 _ h in
    let (u, k, s) = unique_action_id-nil known a seen p in
    let rest : (check_actions known as' (a.action_id ∷ seen)).0 ≡ [] =
      subst (λ x. (check_actions known as' x).0 ≡ []) s q in
    let (v, l, d) = check_actions-nil known as' (a.action_id ∷ seen) rest in
    let (w, o) = Unseen-split a.action_id seen as' v in ((u, w), (k, l), (o, d))

check_actions-ok :
    (known : String → Option Action) (as' : List Action) (seen : List String)
    → Unseen seen as'
    → Unknown known as'
    → DistinctIds as'
    → (check_actions known as' seen).0 ≡ []
unfolding check_actions
check_actions-ok known [] seen u k d = refl
check_actions-ok known (a ∷ as') seen u k d =
    let one = unique_action_id-ok known a seen u.0 k.0 in
    let rest =
      check_actions-ok known as' (a.action_id ∷ seen) (Unseen-join a.action_id seen as' u.1 d.0) k.1
        d.1 in
    ap (λ x. x.0 ++ (check_actions known as' x.1).0) one ∙ rest

-- One loop over two lists.
check_actions-append :
    (known : String → Option Action) (as' bs : List Action) (seen : List String)
    → check_actions known (as' ++ bs) seen ≡ (
      (check_actions known as' seen).0
          ++ (check_actions known bs (check_actions known as' seen).1).0,
      (check_actions known bs (check_actions known as' seen).1).1,
    )
unfolding check_actions
check_actions-append known [] bs seen = refl
check_actions-append known (a ∷ as') bs seen =
    let first = unique_action_id known a seen in
    let middle = check_actions known as' first.1 in
    let rest = check_actions-append known as' bs first.1 in
    ap (λ x. (first.0 ++ x.0, x.1)) rest
    ∙ ap (λ x. (x, (check_actions known bs middle.1).1))
        (sym (append_assoc first.0 middle.0 (check_actions known bs middle.1).0))

check_node_actions-flat :
    (known : String → Option Action) (ns : List Node) (seen : List String)
    → check_node_actions known ns seen ≡ check_actions known (node_actions ns) seen
unfolding check_node_actions node_actions check_actions
check_node_actions-flat known [] seen = refl
check_node_actions-flat known (n ∷ ns) seen =
    let first = check_actions known n.actions seen in
    ap (λ x. (first.0 ++ x.0, x.1)) (check_node_actions-flat known ns first.1)
    ∙ sym (check_actions-append known n.actions (node_actions ns) seen)

check_edge_actions-flat :
    (known : String → Option Action) (es : List Edge) (seen : List String)
    → check_edge_actions known es seen ≡ check_actions known (edge_actions es) seen
unfolding check_edge_actions edge_actions check_actions
check_edge_actions-flat known [] seen = refl
check_edge_actions-flat known (e ∷ es) seen =
    let first = check_actions known e.actions seen in
    ap (λ x. (first.0 ++ x.0, x.1)) (check_edge_actions-flat known es first.1)
    ∙ sym (check_actions-append known e.actions (edge_actions es) seen)

unfoldable pub order_actions : Order → List Action
order_actions order = node_actions order.nodes ++ edge_actions order.edges

check_order_action_ids-flat :
    (known : String → Option Action) (order : Order)
    → check_order_action_ids known order ≡ (check_actions known (order_actions order) []).0
unfolding check_order_action_ids order_actions
check_order_action_ids-flat known order =
    let nodes = check_node_actions-flat known order.nodes [] in
    let edges = λ (seen : List String). check_edge_actions-flat known order.edges seen in
    ap (λ x. x.0 ++ (check_edge_actions known order.edges x.1).0) nodes
    ∙ ap (λ x. (check_actions known (node_actions order.nodes) []).0 ++ x.0)
        (edges (check_actions known (node_actions order.nodes) []).1)
    ∙ ap (λ x. x.0)
        (sym (check_actions-append known (node_actions order.nodes) (edge_actions order.edges) []))

Unseen-nil : (as' : List Action) → Unseen [] as'
unfolding seen_id
Unseen-nil [] = tt
Unseen-nil (a ∷ as') = (refl, Unseen-nil as')

-- An order passes the check of its action ids exactly if none of the actions of its nodes and edges
-- is known by its id yet, and no two of them have the same id.
pub check_order_action_ids_lem :
    (known : String → Option Action) (order : Order)
    → (check_order_action_ids known order ≡ [])
      ↔ (Unknown known (order_actions order) × DistinctIds (order_actions order))
check_order_action_ids_lem known order =
    let flat = check_order_action_ids-flat known order in
    (
      (λ h.
          let (u, k, d) = check_actions-nil known (order_actions order) [] (sym flat ∙ h) in
          (k, d)),
      (λ h.
          flat
          ∙ check_actions-ok known (order_actions order) [] (Unseen-nil (order_actions order)) h.0
              h.1),
    )
