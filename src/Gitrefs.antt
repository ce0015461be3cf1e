-- ===== src/Gitrefs.antt =====
-- internal/gitrefs
pub mod Policy
pub mod Sync
