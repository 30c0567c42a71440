-- ===== src/Validation/Handler.antt =====
-- core/validation/validation_event_handler.cpp: `handleValidateOrder`,
-- `handleValidateInstantActions` and `queryAcceptZoneSet`, the
-- checks of a received order, and what the AGV is asked about its actions. The answers of the AGV
-- are an argument, a function of the event: nothing when its future is not ready in time, else the
-- errors or an exception. The times waited and the log are left out.
use libvda5050pp.Common.{
  String, Bool, false, Option, none, some, List, [], ◌∷◌, ◌++◌, map, if◌then◌else◌, Result, ok, err,
  ◌>>=◌, invalid_event_data, timed_out,
}
use libvda5050pp.Message.{Action, Node, Edge, Order}
use libvda5050pp.State.OrderManager.Defs.{OrderManager, try_get_action}
use libvda5050pp.Checks.Header.{Header, AgvDescription, HeaderError, check_header}
use libvda5050pp.Checks.Stitching.{UpdateError, check_order_id, check_order_append}
use libvda5050pp.Checks.GraphConsistency.Defs.{CheckError, check_order_graph_consistency}
use libvda5050pp.Checks.Actions.Ids.{IdError, check_actions, check_order_action_ids}
use libvda5050pp.Checks.Actions.Declaration.{
  ActionContext, instant_context, node_context, edge_context,
}

pub record ValidateOrderEvent : Type 0 where
  pub header : Header
  pub order : Order
  pub zone_set_id : Option String

pub record ActionValidate : Type 0 where
  pub action : Action
  pub context : ActionContext
  pub keep : Bool

-- An error of the AGV is a value of the type `E`.
pub data OrderError (E : Type 0) : Type 0 where
  in_header : HeaderError → OrderError E
  in_update : UpdateError → OrderError E
  in_graph : CheckError → OrderError E
  in_action_ids : IdError → OrderError E
  from_agv : E → OrderError E
  unknown_action_type : Action → OrderError E

abbrev pub ask_actions : ActionContext → Bool → List Action → List ActionValidate
ask_actions context keep [] = []
ask_actions context keep (a ∷ as') =
    record { action = a; context = context; keep = keep } ∷ ask_actions context keep as'

abbrev pub ask_nodes : List Node → List ActionValidate
ask_nodes [] = []
ask_nodes (n ∷ ns) = ask_actions node_context n.released n.actions ++ ask_nodes ns

abbrev pub ask_edges : List Edge → List ActionValidate
ask_edges [] = []
ask_edges (e ∷ es) = ask_actions edge_context e.released e.actions ++ ask_edges es

-- The AGV: what its handlers of the two events answer.
pub record Agv (E : Type 0) : Type 0 where
  pub accept_zone_set : String → Option (Result (List E))
  pub validate : ActionValidate → Option (Result (List E))

-- The events sent to the AGV, in their order.
unfoldable pub action_validates : Order → List ActionValidate
action_validates order = ask_nodes order.nodes ++ ask_edges order.edges

module _ {E : Type 0} (agv : Agv E) where
  unfoldable pub query_accept_zone_set : String → Result (List E)
  query_accept_zone_set z = elim (agv.accept_zone_set z) [ none ↦ err timed_out | some r ↦ r ]

  unfoldable pub zone_errors : Option String → Result (List E)
  zone_errors none = ok []
  zone_errors (some z) = query_accept_zone_set z

  -- One round of the loop that gathers the results.
  unfoldable pub result_of : ActionValidate → Result (List (OrderError E))
  result_of v = elim (agv.validate v) [
    | none ↦ ok (unknown_action_type v.action ∷ [])
    | some r ↦ (do es ← r; ok (map from_agv es))
  ]

  unfoldable pub gather : List ActionValidate → Result (List (OrderError E))
  gather [] = ok []
  gather (v ∷ vs) = do es ← result_of v; fs ← gather vs; ok (es ++ fs)

  -- The checks, up to the zone set.
  unfoldable pub run_checks :
      OrderManager → AgvDescription → ValidateOrderEvent → Result (List (OrderError E))
  run_checks m d evt = do
    appended ← check_order_append m evt.order
    zones ← zone_errors evt.zone_set_id
    ok (
        map in_header (check_header d evt.header)
        ++ (map in_update (check_order_id m evt.order)
            ++ (map in_graph (check_order_graph_consistency evt.order)
                ++ (map in_update appended
                    ++ (map in_action_ids (check_order_action_ids (try_get_action m) evt.order)
                        ++ map from_agv zones)))))

  -- The events sent, and the value set: none when the token is not acquired.
  unfoldable pub handle_validate_order :
      OrderManager
      → AgvDescription
      → Bool
      → Option ValidateOrderEvent
      → List ActionValidate × Result (Option (List (OrderError E)))
  handle_validate_order m d acquired none = ([], err invalid_event_data)
  handle_validate_order m d acquired (some evt) =
      if acquired
      then (elim (run_checks m d evt) [
        | err e ↦ ([], err e)
        | ok errors ↦ (
          action_validates evt.order,
          (do results ← gather (action_validates evt.order); ok (some (errors ++ results))),
        )
      ])
      else ([], ok none)

  unfoldable pub handle_validate_instant_actions :
      OrderManager
      → Bool
      → Option (List Action)
      → List ActionValidate × Result (Option (List (OrderError E)))
  handle_validate_instant_actions m acquired none = ([], err invalid_event_data)
  handle_validate_instant_actions m acquired (some actions) =
      if acquired
      then (
        ask_actions instant_context false actions,
        (do
          results ← gather (ask_actions instant_context false actions)
          ok (some (map in_action_ids (check_actions (try_get_action m) actions []).0 ++ results))),
      )
      else ([], ok none)
