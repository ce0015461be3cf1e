-- ===== src/State/Conflicts.antt =====
-- internal/state/store.go: the conflicts, which are recorded once and never deleted.
use forge_sync.Base.{
  ℕ, suc, ◌<>◌, Bool, true, false, ◌&&◌, List, [], ◌∷◌, ◌++◌, ◌==◌, if◌then◌else◌, any, find,
  filter, length, sort_by, string_eq, nat_eq, Option, none, some,
}
use forge_sync.Base.Int.{ℤ, pos, int_eq, leb_ℤ, format_int}
use forge_sync.Model.{Time, Conflict}
use forge_sync.Result.{Result, ok}
use forge_sync.Effect.{Exec, pure, raise, wrapped, ◌>>=◌}
use forge_sync.Gitrefs.Policy.{string_le}
use forge_sync.State.Db.{Db, Env, Sys, time_now, stamp, statement, query}

-- UNIQUE (kind, repository, object_key, github_state, forgejo_state)
abbrev pub same_conflict : Conflict → Conflict → Bool
same_conflict a b =
    a.kind == b.kind
    && a.repository == b.repository
    && a.object_key == b.object_key
    && a.github_state == b.github_state
    && a.forgejo_state == b.forgejo_state

-- `resolved_at IS NULL`
abbrev pub unresolved : Conflict → Bool
unresolved c = elim c.resolved_at [ none ↦ true | some t ↦ false ]

-- `INSERT ... ON CONFLICT(...) DO NOTHING`. The id is the next of the sequence.
unfoldable pub insert_conflict : Conflict → Db → Result (Unit {0} × Db)
insert_conflict c db =
    if any (same_conflict c) db.conflicts
    then ok (tt, db)
    else ok (
      tt,
      record db {
        conflicts =
            db.conflicts ++ (record c { id = pos (suc db.conflict_seq); resolved_at = none }) ∷ [];
        conflict_seq = suc db.conflict_seq;
      },
    )

unfoldable pub set_resolved : ℤ → Time → List Conflict → List Conflict
set_resolved id now [] = []
set_resolved id now (c ∷ rows) =
    (if c.id == id && unresolved c then record c { resolved_at = some now } else c)
    ∷ set_resolved id now rows

-- `UPDATE conflicts SET resolved_at = ? WHERE id = ? AND resolved_at IS NULL`
unfoldable pub update_resolved : ℤ → Time → Db → Result (ℕ × Db)
unfolding set_resolved
update_resolved id now db = ok (
  length (filter (λ c. c.id == id && unresolved c) db.conflicts),
  record db { conflicts = set_resolved id now db.conflicts },
)

module _ {W : Type 0} (env : Env W) where
  -- `ORDER BY created_at, id`, where created_at is stored as text.
  abbrev pub conflict_le : Conflict → Conflict → Bool
  conflict_le a b =
      let s = env.format_time a.created_at in
      let t = env.format_time b.created_at in if s == t then leb_ℤ a.id b.id else string_le s t

  unfoldable pub add_conflict : Conflict → Exec (Sys W) (Unit {0})
  add_conflict c = do
    created ← stamp env c.created_at
    wrapped "add conflict" (statement env (insert_conflict (record c { created_at = created })))

  -- The SELECT of ListConflicts.
  unfoldable pub open_conflicts : Db → List Conflict
  open_conflicts db = sort_by conflict_le (filter unresolved db.conflicts)

  unfoldable pub list_conflicts : Exec (Sys W) (List Conflict)
  list_conflicts = wrapped "list conflicts" (query env open_conflicts)

  -- A NULL resolved_at does not scan into a Go string.
  unfoldable pub scan_resolved : Option Conflict → Exec (Sys W) (Option Conflict)
  scan_resolved none = pure none
  scan_resolved (some c) =
      if unresolved c then raise "converting NULL to string is unsupported" else pure (some c)

  unfoldable pub conflict_by_id : ℤ → Exec (Sys W) (Option Conflict)
  conflict_by_id id =
      wrapped ("read conflict " <> format_int id)
        (do found ← query env (λ db. find (λ c. c.id == id) db.conflicts); scan_resolved found)

  -- None if no unresolved conflict has the id.
  unfoldable pub resolve_conflict : ℤ → Exec (Sys W) (Option Conflict)
  unfolding conflict_by_id
  resolve_conflict id = do
    now ← time_now env
    count ← wrapped ("resolve conflict " <> format_int id) (statement env (update_resolved id now))
    if count == 1 then conflict_by_id id else pure none
