-- ===== src/State.antt =====
-- core/state: the order graph, and the manager of the current order.
pub mod Graph
pub mod OrderManager
