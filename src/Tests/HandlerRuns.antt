-- ===== src/Tests/HandlerRuns.antt =====
-- Orders and instant actions delivered to the scheduler.
use libvda5050pp.Common.{ℕ, ◌+◌, ◌≡◌, refl, true, some, [], ◌∷◌, ◌++◌, invalid_argument}
use libvda5050pp.Message.{none_blocking, hard_blocking}
use libvda5050pp.Order.Scheduler.State.{Scheduler, InstantGroup, new_scheduler, pausing, returns}
use libvda5050pp.Order.Scheduler.Machine.{update}
use libvda5050pp.Order.Handler.Defs.{caught, handle_yield_instant_action_group}
use libvda5050pp.Order.Handler.Control.{handle_yield_instant_action_group_refused}
use libvda5050pp.Order.Handler.Deliver.{deliver, staged, committed, deliver_order, deliver_aborted}
use libvda5050pp.Interpreter.Iter.{from_order}
use libvda5050pp.Interpreter.Handlers.{interpret}
use libvda5050pp.Interpreter.Account.{queue_of}
use libvda5050pp.Interpreter.Expected.{order_events}
use libvda5050pp.Interpreter.Receive.{handle_valid_order}
use libvda5050pp.Tests.Data.{node_at, lift}
use libvda5050pp.Tests.InterpreterRuns.{
  trip, trip_base, trip_horizon, trip_path, broken, broken_aborts,
}

deliver_order_example :
    (f : ℕ) × (r : ℕ) × ((i j : ℕ) (s : Scheduler)
      → deliver (handle_valid_order (f + i) (r + j) none_blocking trip).0 s
        ≡ caught update (
            committed s (
              queue_of (
                order_events none_blocking trip
                  (node_at 0 true)
                  trip_base
                  (trip_base ++ trip_horizon)))))
deliver_order_example =
    deliver_order none_blocking trip (node_at 0 true) trip_base trip_horizon trip_path

deliver_aborted_example :
    deliver (handle_valid_order 9 9 none_blocking broken).0 new_scheduler
    ≡ returns tt
        (staged new_scheduler (queue_of (interpret 9 9 (from_order none_blocking broken)).0))
deliver_aborted_example =
    deliver_aborted 9 9 none_blocking broken invalid_argument new_scheduler broken_aborts

abbrev now_pausing : Scheduler
now_pausing = record new_scheduler { state = pausing }

abbrev lift_now : InstantGroup
lift_now = record { instant_actions = lift ∷ []; blocking_type_ceiling = hard_blocking }

handle_yield_instant_action_group_refused_example :
    handle_yield_instant_action_group (some lift_now) now_pausing
    ≡ returns tt (record now_pausing {
      rcv_interrupt_queue = now_pausing.rcv_interrupt_queue ++ lift_now ∷ [];
    })
handle_yield_instant_action_group_refused_example =
    handle_yield_instant_action_group_refused lift_now now_pausing refl
