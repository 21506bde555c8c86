-- ===== src/Eval/Discovery.antt =====
-- agent_eval/patch_discovery.py: the stages of a trial, read from its directory.
pub mod Layout
pub mod Stages
pub mod Trial
pub mod Scan
pub mod Tests
