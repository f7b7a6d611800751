-- ===== src/Compaction.antt =====
-- internal/compaction: how a conversation that fills the context window is summarised.
pub mod Summary
pub mod Window
pub mod Estimator
pub mod Prompt
pub mod Compactor
mod Tests
