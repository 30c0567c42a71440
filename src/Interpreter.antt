-- ===== src/Interpreter.antt =====
-- core/interpreter: the translation of a received order into the events that the scheduler queues.
pub mod Events
pub mod Iter
pub mod Handlers
pub mod Goes
pub mod Groups
pub mod Actions
pub mod TakeAction
pub mod ActionRun
pub mod PathGraph
pub mod Expected
pub mod Legs
pub mod Transitions
pub mod Refines
pub mod Start
pub mod Whole
pub mod Account
pub mod EachOnce
pub mod Ceiling
pub mod Receive
pub mod Deliver
pub mod Total
pub mod Terminates
