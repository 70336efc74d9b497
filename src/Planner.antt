-- ===== src/Planner.antt =====
-- internal/plan: plans of operations that are described and never executed.
pub mod Build
pub mod Selection
mod Tests
