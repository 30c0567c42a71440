-- ===== src/Order/Handler/Deliver.antt =====
-- What the interpreter dispatches, delivered to the handlers in order.
use libvda5050pp.Common.{
  ℕ, ◌+◌, ◌≡◌, refl, sym, ap, ◌∙◌, arith, some, List, [], ◌∷◌, ◌++◌, map, append-nil, append_assoc,
  Error,
}
use libvda5050pp.Message.{Node, Order, BlockingType}
use libvda5050pp.Order.Scheduler.State.{
  Scheduler, QueueEvent, Outcome, returns, throws, diverged, M,
}
use libvda5050pp.Order.Scheduler.Machine.{enqueue, commit_queue, move_staged, update}
use libvda5050pp.Order.Handler.Defs.{
  caught, with_event, handle_yield_normal, handle_yield_instant_action_group,
  handle_interpreter_done,
}
use libvda5050pp.Interpreter.Events.{
  Event, clear_actions, new_action, queued, graph_extension, graph_replacement,
}
use libvda5050pp.Interpreter.Iter.{from_order}
use libvda5050pp.Interpreter.Handlers.{interpret, aborted}
use libvda5050pp.Interpreter.Account.{queue_of}
use libvda5050pp.Interpreter.Expected.{Leg, OrderPath, order_events}
use libvda5050pp.Interpreter.Receive.{
  Dispatched, yields, instant_action_group, enables, interpreter_done, request_state_update,
  handle_valid_order,
}
use libvda5050pp.Interpreter.Deliver.{handle_valid_order_lem}

-- The handlers that the events are subscribed with; an event that has none here leaves the
-- scheduler alone.
unfoldable pub deliver_one : Dispatched → M (Unit {0})
deliver_one (yields (queued e)) s = handle_yield_normal (some e) s
deliver_one (instant_action_group g) s = handle_yield_instant_action_group (some g) s
deliver_one interpreter_done s = handle_interpreter_done (some tt) s
deliver_one (yields clear_actions) s = returns tt s
deliver_one (yields (new_action a)) s = returns tt s
deliver_one (yields (graph_extension g u)) s = returns tt s
deliver_one (yields (graph_replacement g o)) s = returns tt s
deliver_one (enables a) s = returns tt s
deliver_one request_state_update s = returns tt s

abbrev and_then : Outcome (Unit {0}) → M (Unit {0}) → Outcome (Unit {0})
and_then (returns _ s) k = k s
and_then (throws e s) k = throws e s
and_then diverged k = diverged

unfoldable pub deliver : List Dispatched → M (Unit {0})
deliver [] s = returns tt s
deliver (d ∷ ds) s = and_then (deliver_one d s) (deliver ds)

-- The scheduler with more staged events.
abbrev pub staged : Scheduler → List QueueEvent → Scheduler
staged s q = record s { rcv_evt_queue_staging = s.rcv_evt_queue_staging ++ q }

staged-nil : (s : Scheduler) → staged s [] ≡ s
staged-nil s = let h = append-nil s.rcv_evt_queue_staging in cc

deliver-events :
    (es : List Event) (ds : List Dispatched) (s : Scheduler)
    → deliver (map yields es ++ ds) s ≡ deliver ds (staged s (queue_of es))
unfolding deliver deliver_one queue_of handle_yield_normal with_event caught enqueue
deliver-events [] ds s = ap (deliver ds) (sym (staged-nil s))
deliver-events (queued e ∷ es) ds s =
    deliver-events es ds (staged s (e ∷ []))
    ∙ ap (λ x. deliver ds (record s { rcv_evt_queue_staging = x }))
        (append_assoc s.rcv_evt_queue_staging (e ∷ []) (queue_of es))
deliver-events (clear_actions ∷ es) ds s = deliver-events es ds s
deliver-events (new_action a ∷ es) ds s = deliver-events es ds s
deliver-events (graph_extension g u ∷ es) ds s = deliver-events es ds s
deliver-events (graph_replacement g o ∷ es) ds s = deliver-events es ds s

move_staged-append : (q p : List QueueEvent) → move_staged q p ≡ q ++ p
unfolding move_staged
move_staged-append q [] = sym (append-nil q)
move_staged-append q (e ∷ p) = move_staged-append (q ++ e ∷ []) p ∙ append_assoc q (e ∷ []) p

-- The scheduler with all staged events, and more, in its queue.
abbrev pub committed : Scheduler → List QueueEvent → Scheduler
committed s q = record s {
  rcv_evt_queue = s.rcv_evt_queue ++ (s.rcv_evt_queue_staging ++ q);
  rcv_evt_queue_staging = [];
}

caught-commit_queue :
    (s : Scheduler) (q : List QueueEvent)
    → caught commit_queue (staged s q) ≡ caught update (committed s q)
unfolding caught commit_queue
caught-commit_queue s q =
    ap (λ x. caught update (record s { rcv_evt_queue = x; rcv_evt_queue_staging = [] }))
      (move_staged-append s.rcv_evt_queue (s.rcv_evt_queue_staging ++ q))

and_then_return : (o : Outcome (Unit {0})) → and_then o (λ s'. returns tt s') ≡ o
and_then_return (returns a s') = refl
and_then_return (throws e s') = refl
and_then_return diverged = refl

deliver-done :
    (s : Scheduler) (q : List QueueEvent)
    → deliver (interpreter_done ∷ request_state_update ∷ []) (staged s q)
      ≡ caught update (committed s q)
unfolding deliver deliver_one handle_interpreter_done with_event
deliver-done s q = and_then_return (caught commit_queue (staged s q)) ∙ caught-commit_queue s q

-- For every order that is a path there is an amount of fuel and of rounds from which on all that
-- handleValidOrder dispatches, delivered in order, leaves the scheduler with the queue events of
-- the whole path behind those that it had, none of them left staged, before it updates itself once.
pub deliver_order :
    (uninitialised : BlockingType) (order : Order) (n : Node) (base horizon : List Leg)
    → OrderPath order n base horizon
    → (f : ℕ) × (r : ℕ) × ((i j : ℕ) (s : Scheduler)
        → deliver (handle_valid_order (f + i) (r + j) uninitialised order).0 s
          ≡ caught update
              (committed s (queue_of (order_events uninitialised order n base (base ++ horizon)))))
deliver_order c order n base horizon path =
    let (f, r, run) = handle_valid_order_lem c order n base horizon path in
    let es = order_events c order n base (base ++ horizon) in
    (
      f,
      r,
      λ i j s.
          ap (λ x. deliver x.0 s) (run i j)
          ∙ deliver-events es (interpreter_done ∷ request_state_update ∷ []) s
          ∙ deliver-done s (queue_of es),
    )

aborted_log :
    (i j : ℕ) (uninitialised : BlockingType) (order : Order) (x : Error)
    → (interpret i j (from_order uninitialised order)).1 ≡ aborted x
    → (handle_valid_order i j uninitialised order).0
      ≡ map yields (interpret i j (from_order uninitialised order)).0
unfolding handle_valid_order
aborted_log i j c order x h = ground arith

-- When the interpretation of an order is aborted by a throw, the queue events that it has
-- dispatched until then are left staged in the scheduler, behind those staged before; the scheduler
-- is otherwise as it was, and not updated.
pub deliver_aborted :
    (i j : ℕ) (uninitialised : BlockingType) (order : Order) (x : Error) (s : Scheduler)
    → (interpret i j (from_order uninitialised order)).1 ≡ aborted x
    → deliver (handle_valid_order i j uninitialised order).0 s
      ≡ returns tt (staged s (queue_of (interpret i j (from_order uninitialised order)).0))
unfolding deliver
deliver_aborted i j c order x s h =
    let es = (interpret i j (from_order c order)).0 in
    ap (λ ds. deliver ds s) (aborted_log i j c order x h ∙ sym (append-nil (map yields es)))
    ∙ deliver-events es [] s
