-- ===== src/Eval.antt =====
-- The evaluation launcher, wip/agent_eval.
pub mod Models
pub mod Profiles
pub mod Planning
pub mod Launcher
pub mod Discovery
pub mod Scoring
mod Tests
