-- ===== src/Tests/ActionCheckRuns.antt =====
-- The checks of actions at small orders.
use libvda5050pp.Common.{◌≡◌, ◌≢◌, ◌↔◌, refl, arith, String, true, [], ◌∷◌, invalid_state}
use libvda5050pp.Common.IdMap.{find}
use libvda5050pp.Message.{Action, Order}
use libvda5050pp.State.OrderManager.Defs.{
  OrderManager, returned, try_get_action, try_get_action_state,
}
use libvda5050pp.State.OrderManager.Actions.{IsPaired}
use libvda5050pp.Order.Scheduler.State.{
  Scheduler, SchedulerStateType, returns, new_scheduler, pausing, throws,
}
use libvda5050pp.Order.Scheduler.Machine.{status_of}
use libvda5050pp.Order.Scheduler.Commands.{do_cancel, do_pause, command}
use libvda5050pp.Checks.Actions.Ids.{
  seen_id, unique_action_id, check_actions, check_node_actions, check_edge_actions,
  check_order_action_ids,
}
use libvda5050pp.Checks.Actions.Unique.{
  Unknown, DistinctIds, order_actions, check_order_action_ids_lem,
}
use libvda5050pp.Checks.Actions.Accept.{
  add_new_actions, with_id, state_with, check_order_action_ids-accepted,
}
use libvda5050pp.Checks.Actions.Feasible.{
  is_pauseable, is_resumable, is_cancelable, control_action_feasible, control_action_feasible_lem,
  at_rest, infeasible_refused,
}
use libvda5050pp.Tests.Data.{node_at, beep, lift}
use libvda5050pp.Tests.ManagerRuns.{manager, manager-IsPaired}

abbrev horn : Action
horn = record beep { action_id = "horn" }

abbrev noisy : Order
noisy = record {
  order_id = "noisy";
  order_update_id = 0;
  nodes = record (node_at 0 true) { actions = beep ∷ horn ∷ [] } ∷ [];
  edges = [];
}

check_order_action_ids_lem_example :
    (check_order_action_ids (try_get_action manager) noisy ≡ [])
    ↔ (Unknown (try_get_action manager) (order_actions noisy) × DistinctIds (order_actions noisy))
check_order_action_ids_lem_example = check_order_action_ids_lem (try_get_action manager) noisy

noisy_passes : check_order_action_ids (try_get_action manager) noisy ≡ []
unfolding check_order_action_ids check_node_actions check_edge_actions check_actions
    unique_action_id seen_id try_get_action find
noisy_passes = refl

check_order_action_ids-accepted_example :
    (m' : OrderManager) × (add_new_actions (order_actions noisy) manager ≡ returned tt m')
    × IsPaired m'
    × ((id : String)
        → try_get_action_state m' id
          ≡ state_with (with_id id (order_actions noisy)) (try_get_action_state manager id))
check_order_action_ids-accepted_example =
    check_order_action_ids-accepted noisy manager manager-IsPaired noisy_passes

abbrev cancel_now : Action
cancel_now = record lift { action_type = "cancelOrder" }

abbrev pause_now : Action
pause_now = record lift { action_type = "startPause" }

pause_infeasible : control_action_feasible (status_of pausing) pause_now ≢ []
unfolding control_action_feasible is_pauseable is_resumable is_cancelable
pause_infeasible p = ground arith

infeasible_refused_example :
    command do_pause (record new_scheduler { state = pausing })
    ≡ throws invalid_state (record new_scheduler { state = pausing })
infeasible_refused_example =
    infeasible_refused do_pause pause_now (record new_scheduler { state = pausing }) refl
      pause_infeasible

control_action_feasible_lem_example :
    (control_action_feasible (status_of SchedulerStateType.paused) cancel_now ≡ []) ↔ (
      (s' : Scheduler) × (command do_cancel (at_rest SchedulerStateType.paused new_scheduler)
        ≡ returns tt s'))
control_action_feasible_lem_example =
    control_action_feasible_lem do_cancel cancel_now SchedulerStateType.paused new_scheduler refl
