-- ===== src/Checks/Actions.antt =====
-- src/vda5050++/core/checks/action.cpp, and the check of an order's action ids.
pub mod Ids
pub mod Unique
pub mod Feasible
pub mod Accept
pub mod Declaration
pub mod Constraint
pub mod Validation
pub mod Declared
pub mod Validated
