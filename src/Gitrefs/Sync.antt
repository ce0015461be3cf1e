-- ===== src/Gitrefs/Sync.antt =====
-- internal/gitrefs/sync.go
pub mod Buffer
pub mod Run
pub mod Cycle
pub mod Delivers
pub mod Agrees
pub mod DryRun
pub mod Fetch
pub mod Rounds
pub mod Keeps
