-- ===== src/Feishu.antt =====
-- internal/feishu: the task scheduler of the chat gateway.
pub mod Scheduler
