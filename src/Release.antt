-- ===== src/Release.antt =====
-- internal/release: the lock that pins each image of a network definition.
pub mod Lock
pub mod Pinned
