-- ===== src/Usage.antt =====
-- scripts/token_usage.py: the accounting of tokens and costs.
pub mod Reports
pub mod Values
pub mod Account
mod Tests
