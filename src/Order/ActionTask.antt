-- ===== src/Order/ActionTask.antt =====
-- core/order/action_task.h and action_task.cpp: the life of one action.
pub mod Defs
pub mod Diagram
pub mod Log
