-- ===== src/Validation/Valid.antt =====
-- What an order has for which `handleValidateOrder` sets no error.
use libvda5050pp.Common.{
  ◌≡◌, ◌≤◌, ◌⊎◌, refl, ap, ◌∙◌, inl, inr, Option-cases, Result-cases, String, Bool, true, false,
  Option, none, some, List, [], ◌∷◌, ◌++◌, map, All, arith, ok,
}
use libvda5050pp.State.OrderManager.Defs.{OrderManager, try_get_action}
use libvda5050pp.Checks.Following.{Follows, check_order_id-newer, check_order_append-Follows}
use libvda5050pp.Message.{Action, Node, Edge}
use libvda5050pp.Checks.Actions.Ids.{check_actions}
use libvda5050pp.Checks.Actions.Declaration.{instant_context, node_context, edge_context}
use libvda5050pp.Checks.Header.{AgvDescription, current_version, check_header, check_header_lem}
use libvda5050pp.Checks.Stitching.{check_order_id, check_order_append}
use libvda5050pp.Checks.GraphConsistency.Defs.{check_order_graph_consistency}
use libvda5050pp.Checks.GraphConsistency.Sound.{
  IsConsistent, IsUint32, check_order_graph_consistency-IsConsistent,
}
use libvda5050pp.Checks.GraphConsistency.Walk.{node_key, edge_key}
use libvda5050pp.Checks.Actions.Ids.{check_order_action_ids}
use libvda5050pp.Checks.Actions.Unique.{
  Unknown, DistinctIds, order_actions, check_order_action_ids_lem, check_actions-nil,
}
use libvda5050pp.Validation.Handler.{
  ValidateOrderEvent, ActionValidate, Agv, OrderError, in_header, in_update, in_graph,
  in_action_ids, from_agv, action_validates, query_accept_zone_set, zone_errors, result_of, gather,
  run_checks, handle_validate_order, handle_validate_instant_actions, ask_actions,
}
use libvda5050pp.Validation.Asked.{Accepted, AgvAccepts, order-Accepted, order_asked}

module _ {E : Type 0} (agv : Agv E) where
  map-nil : {A : Type 0} (f : A → OrderError E) (xs : List A) → map f xs ≡ [] → xs ≡ []
  map-nil f [] h = refl
  map-nil f (x ∷ xs) h = absurd (ground arith)

  append-nil_both : (es fs : List (OrderError E)) → es ++ fs ≡ [] → (es ≡ []) × (fs ≡ [])
  append-nil_both [] fs h = (refl, h)
  append-nil_both (e ∷ es) fs h = absurd (ground arith)

  result_of-nil : (v : ActionValidate) → result_of agv v ≡ ok [] → agv.validate v ≡ some (ok [])
  unfolding result_of
  result_of-nil v h = elim (Option-cases (agv.validate v)) [
    | inl silent ↦ absurd (ground arith)
    | inr (r, known) ↦ elim (Result-cases r) [
      | inr (e, stop) ↦ absurd (ground arith)
      | inl (es, go) ↦ known ∙ ap some (go ∙ ap ok (map-nil from_agv es (ground arith)))
    ]
  ]

  gather-nil : (vs : List ActionValidate) → gather agv vs ≡ ok [] → Accepted agv vs
  unfolding gather
  gather-nil [] h = tt
  gather-nil (v ∷ vs) h = elim (Result-cases (result_of agv v)) [
    | inr (e, stop) ↦ absurd (ground arith)
    | inl (es, go) ↦ elim (Result-cases (gather agv vs)) [
      | inr (e, stop) ↦ absurd (ground arith)
      | inl (fs, on) ↦
          let (p, q) = append-nil_both es fs (ground arith) in
          (result_of-nil v (go ∙ ap ok p), gather-nil vs (on ∙ ap ok q))
    ]
  ]

  abbrev pub ZoneAccepted : Option String → Type 0
  ZoneAccepted none = Unit {0}
  ZoneAccepted (some z) = agv.accept_zone_set z ≡ some (ok [])

  -- What an order has that is acceptable to the manager and to the AGV.
  pub record IsAcceptable (m : OrderManager) (d : AgvDescription) (evt : ValidateOrderEvent)
      : Type 0 where
    pub same_manufacturer : d.manufacturer ≡ evt.header.manufacturer
    pub same_serial_number : d.serial_number ≡ evt.header.serial_number
    pub same_version : evt.header.version ≡ current_version
    pub not_older : m.order_id ≡ evt.order.order_id → m.order_update_id ≤ evt.order.order_update_id
    pub consistent : IsConsistent evt.order
    pub stitched :
        ((m.order_id ≡ evt.order.order_id) × (m.order_update_id ≡ evt.order.order_update_id))
        ⊎ Follows m evt.order
    pub new_actions : Unknown (try_get_action m) (order_actions evt.order)
    pub distinct_actions : DistinctIds (order_actions evt.order)
    pub zone_accepted : ZoneAccepted evt.zone_set_id
    pub node_actions_accepted :
        All (λ (n : Node). AgvAccepts agv node_context n.released n.actions) evt.order.nodes
    pub edge_actions_accepted :
        All (λ (e : Edge). AgvAccepts agv edge_context e.released e.actions) evt.order.edges

  zone_errors-nil : (z : Option String) → zone_errors agv z ≡ ok [] → ZoneAccepted z
  unfolding zone_errors query_accept_zone_set
  zone_errors-nil none h = tt
  zone_errors-nil (some z) h = elim (Option-cases (agv.accept_zone_set z)) [
    | inl silent ↦ absurd (ground arith)
    | inr (r, known) ↦ ground arith
  ]

  -- The checks in the order of the handler, none with an error.
  run_checks-nil :
      (m : OrderManager) (d : AgvDescription) (evt : ValidateOrderEvent)
      → run_checks agv m d evt ≡ ok []
      → (check_header d evt.header ≡ [])
        × (check_order_id m evt.order ≡ [])
        × (check_order_graph_consistency evt.order ≡ [])
        × (check_order_append m evt.order ≡ ok [])
        × (check_order_action_ids (try_get_action m) evt.order ≡ [])
        × (zone_errors agv evt.zone_set_id ≡ ok [])
  unfolding run_checks
  run_checks-nil m d evt h = elim (Result-cases (check_order_append m evt.order)) [
    | inr (e, stop) ↦ absurd (ground arith)
    | inl (appended, go) ↦ elim (Result-cases (zone_errors agv evt.zone_set_id)) [
      | inr (e, stop) ↦ absurd (ground arith)
      | inl (zones, on) ↦
          let (a, r₁) =
            append-nil_both (map in_header (check_header d evt.header)) _ (ground arith) in
          let (b, r₂) = append-nil_both (map in_update (check_order_id m evt.order)) _ r₁ in
          let (c, r₃) =
            append-nil_both (map in_graph (check_order_graph_consistency evt.order)) _ r₂ in
          let (e, r₄) = append-nil_both (map in_update appended) _ r₃ in
          let (f, g) =
            append-nil_both
              (map in_action_ids (check_order_action_ids (try_get_action m) evt.order)) _ r₄ in
          (
            map-nil in_header _ a,
            map-nil in_update _ b,
            map-nil in_graph _ c,
            go ∙ ap ok (map-nil in_update _ e),
            map-nil in_action_ids _ f,
            on ∙ ap ok (map-nil from_agv _ g),
          )
    ]
  ]

  run_checks-valid :
      (m : OrderManager) (d : AgvDescription) (evt : ValidateOrderEvent)
      → All IsUint32 (map node_key evt.order.nodes)
      → All IsUint32 (map edge_key evt.order.edges)
      → run_checks agv m d evt ≡ ok []
      → gather agv (action_validates evt.order) ≡ ok []
      → IsAcceptable m d evt
  run_checks-valid m d evt u v h g =
      let (header, id, graph, append, ids, zone) = run_checks-nil m d evt h in
      let (manufacturer, serial, version) = (check_header_lem d evt.header).0 header in
      let (at_nodes, at_edges) =
        order-Accepted agv evt.order (gather-nil (action_validates evt.order) g) in
      let (fresh, distinct) = (check_order_action_ids_lem (try_get_action m) evt.order).0 ids in
      record {
        same_manufacturer = manufacturer;
        same_serial_number = serial;
        same_version = version;
        not_older = λ same. check_order_id-newer m evt.order id same;
        consistent = check_order_graph_consistency-IsConsistent evt.order u v graph;
        stitched =
            check_order_append-Follows m evt.order id append
              (check_order_graph_consistency-IsConsistent evt.order u v graph).has_nodes;
        new_actions = fresh;
        distinct_actions = distinct;
        zone_accepted = zone_errors-nil evt.zone_set_id zone;
        node_actions_accepted = at_nodes;
        edge_actions_accepted = at_edges;
      }

  -- A received order with `uint32_t` sequence ids for which the handler sets an empty list of
  -- errors has the manufacturer, the serial number and the version of the AGV. Under the id of the
  -- current order it has no smaller update id. It is the current order with its update id, or it
  -- belongs to the current order or that has ended, and the smallest sequence id of its nodes is
  -- the last one of the base, or 0 where the current order has ended. Its graph is consistent; its
  -- actions have distinct ids that the order manager does not know; the AGV reports no error for
  -- its zone set, if it has one, and for each action of its nodes and edges, asked about with the
  -- context and the release of that; and the AGV has been asked about exactly its actions, those of
  -- the nodes first.
  pub handle_validate_order-IsAcceptable :
      (m : OrderManager) (d : AgvDescription) (acquired : Bool) (evt : ValidateOrderEvent)
      → All IsUint32 (map node_key evt.order.nodes)
      → All IsUint32 (map edge_key evt.order.edges)
      → (handle_validate_order agv m d acquired (some evt)).1 ≡ ok (some [])
      → IsAcceptable m d evt
        × (map (λ v. v.action) (handle_validate_order agv m d acquired (some evt)).0
            ≡ order_actions evt.order)
  unfolding handle_validate_order
  handle_validate_order-IsAcceptable m d false evt u v h = absurd (ground arith)
  handle_validate_order-IsAcceptable m d true evt u v h =
      elim (Result-cases (run_checks agv m d evt)) [
        | inr (e, stop) ↦ absurd (ground arith)
        | inl (errors, go) ↦ elim (Result-cases (gather agv (action_validates evt.order))) [
          | inr (e, stop) ↦ absurd (ground arith)
          | inl (results, on) ↦
              let (p, q) = append-nil_both errors results (ground arith) in
              let sent : (handle_validate_order agv m d true (some evt)).0
                  ≡ action_validates evt.order =
                ground arith in
              (
                run_checks-valid m d evt u v (go ∙ ap ok p) (on ∙ ap ok q),
                ap (map (λ (x : ActionValidate). x.action)) sent ∙ order_asked evt.order,
              )
        ]
      ]

  -- Instant actions for which the handler sets an empty list of errors have distinct ids that the
  -- order manager does not know, and the AGV accepts each of them.
  handle_validate_instant_actions_lem :
      (m : OrderManager) (acquired : Bool) (actions : List Action)
      → (handle_validate_instant_actions agv m acquired (some actions)).1 ≡ ok (some [])
      → Unknown (try_get_action m) actions
        × DistinctIds actions
        × Accepted agv (ask_actions instant_context false actions)
  unfolding handle_validate_instant_actions
  handle_validate_instant_actions_lem m false actions h = absurd (ground arith)
  handle_validate_instant_actions_lem m true actions h =
      elim (Result-cases (gather agv (ask_actions instant_context false actions))) [
        | inr (e, stop) ↦ absurd (ground arith)
        | inl (results, on) ↦
            let (p, q) =
              append-nil_both (map in_action_ids (check_actions (try_get_action m) actions []).0)
                results (ground arith) in
            let (_, fresh, distinct) =
              check_actions-nil (try_get_action m) actions [] (map-nil in_action_ids _ p) in
            (fresh, distinct, gather-nil (ask_actions instant_context false actions) (on ∙ ap ok q))
      ]
