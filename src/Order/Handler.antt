-- ===== src/Order/Handler.antt =====
-- core/order/order_event_handler.cpp: how events reach the scheduler.
pub mod Defs
pub mod Control
pub mod Deliver
