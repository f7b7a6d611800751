-- ===== src/Slash.antt =====
-- internal/slash: the commands that a user types.
pub mod Arguments
