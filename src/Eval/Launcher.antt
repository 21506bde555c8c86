-- ===== src/Eval/Launcher.antt =====
-- agent_eval/cli.py, tasks.py and pier_command.py: from the command line to the command that is run.
pub mod Redact
pub mod JobName
pub mod Tasks
pub mod Command
pub mod Network
pub mod Evaluate
mod Tests
