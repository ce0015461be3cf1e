-- ===== src/Api.antt =====
-- internal/api
pub mod Retry
