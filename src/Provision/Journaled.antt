-- ===== src/Provision/Journaled.antt =====
-- Write-ahead journaling: what each call that changes the cloud must rest on, and the rules by which
-- the runs of internal/provision keep to it.
pub mod Rules
pub mod Steps
pub mod Quiet
pub mod Launches
pub mod Allocations
pub mod Releases
pub mod Whole
