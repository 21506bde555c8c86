-- ===== src/Grader.antt =====
-- The task verifier, tasks/*/tests/grader.py: one script, a copy of which stands in every task.
pub mod Status
pub mod Reports
pub mod Score
pub mod Merge
pub mod Verdict
pub mod Whitelist
pub mod Messages
pub mod Order
pub mod Limits
pub mod Patch
pub mod Prepare
mod Tests
