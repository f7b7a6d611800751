-- ===== src/Engine.antt =====
-- internal/engine/target.go: the agent engine, which drives one run turn by turn through its five
-- collaborators.
pub mod Types
pub mod Run
pub mod Phases
pub mod ToolRound
pub mod Turn
pub mod Canonical
mod Tests
pub mod Limit
