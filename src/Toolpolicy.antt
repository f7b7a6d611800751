-- ===== src/Toolpolicy.antt =====
-- internal/toolpolicy: what a tool call may do, and the shell classifier behind the bash tool.
pub mod Assessment
pub mod Path
pub mod Shell
