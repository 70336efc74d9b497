-- ===== src/Lifecycle.antt =====
-- internal/lifecycle: the deployment of a network and its upgrades.
pub mod Nodes
pub mod Deployment
pub mod Building
pub mod Upgrades
pub mod Planning
pub mod Replacing
pub mod Scope
pub mod Fleet
pub mod Binding
pub mod Command
pub mod Journaled
pub mod Tests
