-- ===== src/Order/NavigationTask.antt =====
-- core/order/navigation_task.h and navigation_task.cpp: the drive to one goal node.
pub mod Defs
pub mod Log
