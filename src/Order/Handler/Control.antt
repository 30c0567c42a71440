-- ===== src/Order/Handler/Control.antt =====
-- What the handlers make of what the scheduler refuses.
use libvda5050pp.Common.{◌≡◌, arith, false, some, [], ◌∷◌, ◌++◌}
use libvda5050pp.Order.Scheduler.State.{Scheduler, InstantGroup, returns}
use libvda5050pp.Order.Scheduler.Commands.{takes_interrupt, interrupt_refused}
use libvda5050pp.Order.Handler.Defs.{caught, with_event, handle_yield_instant_action_group}

-- A group of instant actions that the scheduler does not take in its state is queued for an
-- interrupt all the same, and the handler returns as if it had been taken.
pub handle_yield_instant_action_group_refused :
    (g : InstantGroup) (s : Scheduler)
    → takes_interrupt s.state ≡ false
    → handle_yield_instant_action_group (some g) s
      ≡ returns tt (record s { rcv_interrupt_queue = s.rcv_interrupt_queue ++ g ∷ [] })
unfolding handle_yield_instant_action_group with_event caught
handle_yield_instant_action_group_refused g s h = let e = interrupt_refused g s h in ground arith
