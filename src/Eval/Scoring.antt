-- ===== src/Eval/Scoring.antt =====
-- agent_eval/patch_scoring.py: scoring the frozen patches of a job and comparing first with final.
pub mod Patches
pub mod Equality
pub mod Pairs
pub mod Stats
pub mod Summary
pub mod Work
pub mod Verify
pub mod Job
pub mod Run
mod Tests
