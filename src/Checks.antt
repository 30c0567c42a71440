-- ===== src/Checks.antt =====
-- core/checks: the checks that a received order passes before it is executed.
pub mod GraphConsistency
pub mod Stitching
pub mod Following
pub mod Header
pub mod Actions
