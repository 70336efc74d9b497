-- ===== src/Provision.antt =====
-- The EC2 stage (internal/provision): plan, journal record, address and instance reconciliation.
pub mod Types
pub mod Outside
pub mod Plan
pub mod Compute
pub mod Progress
pub mod Upgrade
pub mod Cloud
pub mod Effects
pub mod Discovery
pub mod Ec2
pub mod Hoare
pub mod Returns
pub mod Adoption
pub mod Exits
pub mod Journaled
pub mod Tests
pub mod Addresses
pub mod Ipam
pub mod Preflight
pub mod Disks
pub mod Execute
pub mod Release
