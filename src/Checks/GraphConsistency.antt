-- ===== src/Checks/GraphConsistency.antt =====
-- `checkOrderGraphConsistency` of core/checks/order.cpp.
pub mod IdSet
pub mod Defs
pub mod Walk
pub mod Ranges
pub mod Sound
pub mod Complete
