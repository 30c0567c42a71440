-- ===== src/Order/Scheduler.antt =====
-- core/order/scheduler.h and scheduler.cpp: the scheduler of the tasks.
pub mod State
pub mod Tasks
pub mod Fetch
pub mod Interrupt
pub mod Machine
pub mod Rounds
pub mod Starts
pub mod Exclusion
pub mod Partition
pub mod TaskMaps
pub mod Commands
