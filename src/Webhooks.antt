-- ===== src/Webhooks.antt =====
-- internal/webhooks
pub mod Server
pub mod Wiring
