-- ===== src/Journal.antt =====
-- The journal store (internal/journal): DynamoDB items behind conditional writes, and the store
-- that retires addresses.
pub mod Table
pub mod Codec
pub mod Dynamo
pub mod Faithful
pub mod Lock
pub mod Moves
pub mod Requests
pub mod Runs
pub mod Cleanup
pub mod Retiring
pub mod Saves
pub mod Roundtrip
pub mod Claims
pub mod Exclusion
pub mod Refusals
mod Tests
