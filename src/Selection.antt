-- ===== src/Selection.antt =====
-- scripts/select_discriminative_tasks.py: choosing the tasks that tell models apart.
pub mod Layers
pub mod Nested
mod Tests
