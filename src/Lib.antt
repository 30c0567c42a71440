-- ===== src/Lib.antt =====
-- Verification of the order core of libvda5050++: the graph of an order, the tasks of its actions
-- and drives, the scheduler that runs them, the manager of the current order, checks of received
-- orders, and the interpreter that turns an order into what the scheduler runs.
--
-- Parts of the program. A received order passes checks, and the interpreter makes events of it (a
-- drive to a node, a group of actions) that wait in the queue of the scheduler (the order event
-- handler puts them there). The scheduler makes a navigation task or action tasks of them as far as
-- the blocking types allow, and passes on the transitions that the AGV's handlers report. Tasks
-- tell the handlers what to do through event managers. The graph holds the nodes and edges that the
-- order has released or announced, and where the AGV is; the order manager keeps it with the states
-- of the order's actions.
--
-- Files. `Message`: the VDA5050 messages, whose C++ types come from the vda5050 message library.
-- `State/Graph`: src/vda5050++/core/state/graph.cpp with
-- include/private/vda5050++/core/state/graph.h; `Element` and `Defs` hold the methods (`update` is
-- Graph::update, `clean_horizon` is Graph::cleanHorizon, and so on), `Dump` the walks over all
-- elements, `Valid` the invariants, and the other files are about the methods that they name.
-- `State/OrderManager`: src/vda5050++/core/state/order_manager.cpp; `Defs` holds the methods, and
-- the other files are about the actions and about the graph of the current order. `Order/Dispatch`:
-- what is sent to the event managers. `Order/ActionTask` and `Order/NavigationTask`:
-- src/vda5050++/core/order/action_task.cpp and navigation_task.cpp; a state class is a constructor,
-- `state_transition` and `transfer` are the virtual methods, `state_effect` is effect(), and `run`
-- lets transitions arrive one after the other. `Order/Scheduler`:
-- src/vda5050++/core/order/scheduler.cpp; `State` has the members and the monad, `Tasks`, `Fetch`
-- and `Interrupt` the private methods, `Machine` the state classes and the public methods.
-- `Checks/GraphConsistency`: checkOrderGraphConsistency of src/vda5050++/core/checks/order.cpp;
-- `IdSet` is std::set<uint32_t>, `Defs` the check, `Walk` and `Ranges` about its parts, `Sound` and
-- `Complete` about the orders that it lets pass; `Checks/Stitching`: checkOrderId and
-- checkOrderAppend of the same file, `Checks/Following` is about the orders that pass these.
-- `Checks/Actions`: checkOrderActionIds, and uniqueActionId and controlActionFeasible of
-- src/vda5050++/core/checks/action.cpp; `Ids` and `Feasible` hold them, `Unique` and `Accept` are
-- about the orders that pass; `Declaration`, `Constraint` and `Validation` have contextCheck,
-- ensureParameterConstraints and validateActionWithDeclaration of that file, `Declared` and
-- `Validated` are about the actions that it finds no error in. `Checks/Header`: checkHeader of
-- src/vda5050++/core/checks/header.cpp. `Validation`:
-- src/vda5050++/core/validation/validation_event_handler.cpp; `Handler` puts the checks together
-- and asks the AGV, `Asked` is about what it is asked, `Valid` the orders that pass. `Interpreter`:
-- src/vda5050++/core/interpreter/functional.cpp; `Iter` has the members of EventIter, `Handlers`
-- the handlers and nextEvent, `Goes` sequences of handlers, `Actions` and `ActionRun` the actions
-- of one node or edge, `Groups` and `Expected` describe what an order is to become, `Legs`,
-- `Refines` and `Whole` compare it with the handlers, `PathGraph` is about the collected graph,
-- `Account`, `EachOnce` and `Ceiling` about the events, `Total` and `Terminates` about any order;
-- `Receive` and `Deliver`: src/vda5050++/core/interpreter/interpreter_event_handler.cpp.
-- `Order/Handler`: src/vda5050++/core/order/order_event_handler.cpp; `Defs` has the handlers,
-- `Deliver` lets them receive what the interpreter dispatches. `Common`: std::map as the sorted
-- list of its entries, lists, errors, uint32_t arithmetic. `Tests`: examples.
--
-- Conventions. A method that changes an object returns the new one; a throw is an error value, and
-- in the scheduler it keeps what was changed before. Sequence ids are natural numbers, and sums of
-- them are taken modulo 2 ^ 32. What C++ leaves undefined (an empty optional or an end iterator
-- that is read) is the error `undefined`. Dispatched events are a log, in order. Task objects are
-- shared between the maps of the scheduler by their address on a heap.
--
-- Bounds. `Scheduler::update` calls itself; the model allows two rounds, and a theorem of the list
-- below is about more. The recursion of updateFetchNext follows the queue, which every round
-- shortens.
--
-- Not modelled: log output, describe(), and the mutex of the scheduler, which makes each public
-- method one step. The event managers' queues belong to a library: what is dispatched to one
-- manager is taken to be delivered in order. The state message, configuration, the MQTT connection,
-- timers and threads, and the public wrappers are not part of the development.
pub mod Common
pub mod Message
pub mod State
pub mod Order
pub mod Checks
pub mod Validation
pub mod Interpreter
mod Tests
