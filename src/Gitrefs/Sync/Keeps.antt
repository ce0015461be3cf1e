-- ===== src/Gitrefs/Sync/Keeps.antt =====
-- Sync changes the database only by recording conflicts.
use forge_sync.Base.{String, Bool}
use forge_sync.Effect.Within.{Within, within_rules}
use forge_sync.State.Db.{Db}
use forge_sync.State.Rules.{OnDb, StoreRules, on_db, Within-external, Within-add_conflict}
use forge_sync.Gitrefs.Sync.Run.{Remote}
use forge_sync.Gitrefs.Sync.Cycle.{SyncResult, Synchronizer, deferred, carry_out, sync_in, sync}

module _ {W : Type 0} {R : Db → Db → Type 0} (rules : StoreRules R) (y : Synchronizer W)
    (repository : String) (on_github on_forgejo : Remote) where
  ruleset store = (within_rules, on_db, Within-external, Within-add_conflict)

  Within-carry_out :
      (dir : String) (result : SyncResult)
      → Within (OnDb R) (carry_out y repository on_github on_forgejo dir result)
  unfolding carry_out
  Within-carry_out dir result = search (store, rules) depth 9

  Within-sync_in :
      (dry_run : Bool) (workspace : String)
      → Within (OnDb R) (sync_in y repository on_github on_forgejo dry_run workspace)
  unfolding sync_in
  Within-sync_in dry_run workspace = search (store, rules, Within-carry_out) depth 9

  Within-deferred_sync :
      (dry_run : Bool) (workspace : String)
      → Within (OnDb R) (
          deferred
            (y.host.remove_all workspace)
            (sync_in y repository on_github on_forgejo dry_run workspace))
  Within-deferred_sync dry_run workspace = record {
    at = λ s. (Within-sync_in dry_run workspace).at s;
  }

  pub Within-sync :
      (dry_run : Bool) → Within (OnDb R) (sync y repository on_github on_forgejo dry_run)
  unfolding sync
  Within-sync dry_run = search (store, rules, Within-deferred_sync) depth 9
