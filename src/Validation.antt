-- ===== src/Validation.antt =====
-- core/validation: what a received order must pass.
pub mod Handler
pub mod Asked
pub mod Valid
