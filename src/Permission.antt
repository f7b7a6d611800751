-- ===== src/Permission.antt =====
-- internal/permission: may a tool call execute? The modes a user selects, the classification of a call
-- by its assessment, and the coordinator that asks a reviewer and the user.
pub mod Request
pub mod Modes
pub mod Policy
pub mod Coordinator
pub mod Registry
mod Tests
