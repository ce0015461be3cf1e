-- ===== src/State/Repeats.antt =====
-- A conflict that is recorded a second time.
use forge_sync.Base.{◌≡◌}
use forge_sync.Model.{Conflict}
use forge_sync.Result.{ok}
use forge_sync.State.Db.{Env, Sys}
use forge_sync.State.Conflicts.{add_conflict}
use forge_sync.State.Extends.{Extends}
use forge_sync.State.Lookup.{add_conflict_recorded, add_conflict_idle}

module _ {W : Type 0} (env : Env W) where
  -- Once a conflict was recorded, recording it again changes nothing in the database, in every later state
  -- that keeps what was recorded: not even if the conflict was resolved in the meantime, so that one which
  -- comes back is not listed again.
  pub add_conflict_again :
      (c : Conflict) (s t : Sys W)
      → (add_conflict env c s).0 ≡ ok tt
      → Extends (add_conflict env c s).1.db t.db
      → (add_conflict env c t).1.db ≡ t.db
  add_conflict_again c s t h e =
      add_conflict_idle env c t (e.conflicts c (add_conflict_recorded env c s h))
