-- ===== src/Bootstrap.antt =====
-- internal/bootstrap: the preparation of the provisioned hosts.
pub mod Plan
