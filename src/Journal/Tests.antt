-- ===== src/Journal/Tests.antt =====
-- Runs of the journal store on a DynamoDB in memory.
pub mod Service
mod Runs
