-- ===== src/Provider.antt =====
-- internal/provider: the requests to a model.
pub mod Retry
