-- ===== src/Spec.antt =====
-- Operator intent (internal/spec): the network definition and its validators.
pub mod Types
pub mod Patterns
pub mod Validate
