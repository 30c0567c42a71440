-- ===== src/Order.antt =====
-- core/order: the tasks of an order's actions and navigation steps, and the scheduler that drives
-- them.
pub mod Dispatch
pub mod ActionTask
pub mod NavigationTask
pub mod Scheduler
pub mod Handler
