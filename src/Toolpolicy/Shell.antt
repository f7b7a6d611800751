-- ===== src/Toolpolicy/Shell.antt =====
-- internal/toolpolicy/shell.go
pub mod Syntax
pub mod Tables
pub mod Synchronous
pub mod ReadOnly
pub mod Tests
