-- ===== src/State/OrderManager.antt =====
-- core/state/order_manager.h and order_manager.cpp: the current order, its graph and its actions.
pub mod Defs
pub mod Actions
pub mod Position
