-- ===== src/State.antt =====
-- internal/state/store.go, over the tables of migrations/*.sql. The children model its methods.
pub mod Db
pub mod Mappings
pub mod Webhooks
pub mod Conflicts
pub mod Runs
pub mod Rules
pub mod Extends
pub mod Rows
pub mod Lookup
pub mod Repeats
