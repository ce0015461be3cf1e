-- ===== src/Engine/Repository.antt =====
-- internal/reconcile/engine.go: reconcileOne, everything of one repository.
use forge_sync.Base.{
  String, ◌<>◌, Bool, false, not, ◌||◌, none, [], string_eq, if◌then◌else◌, length,
}
use forge_sync.Base.Int.{pos, ltb_ℤ, format_int}
use forge_sync.Base.Text.{contains_text}
use forge_sync.Model.{RepositoryMapping}
use forge_sync.Result.{Error, Result, ok, err}
use forge_sync.Effect.{Exec, pure, raise, wrapped, caught, succeeded, ◌>>=◌, ◌>>◌}
use forge_sync.State.Db.{Sys, time_now}
use forge_sync.State.Mappings.{list_issue_mappings, list_pull_request_mappings}
use forge_sync.State.Conflicts.{add_conflict}
use forge_sync.Gitrefs.Sync.Run.{Remote}
use forge_sync.Gitrefs.Sync.Cycle.{SyncResult}
use forge_sync.Engine.{RepositoryResult, Engine}

module _ {W : Type 0} (engine : Engine W) (mapping : RepositoryMapping) (dry_run : Bool) where
  open engine use {env, parts, github_token, forgejo_token, forgejo_clone_base, max_ref_size_kb}

  -- A conflict about the whole repository.
  unfoldable pub note : String → String → String → String → String → Exec (Sys W) (Unit {0})
  note kind key github_state forgejo_state last_known = do
    now ← time_now env
    add_conflict env (record {
      id = pos 0;
      kind = kind;
      repository = mapping.github_full_name;
      object_key = key;
      github_state = github_state;
      forgejo_state = forgejo_state;
      last_known_state = last_known;
      created_at = now;
      resolved_at = none;
    })

  abbrev pub noted : RepositoryResult
  noted = record { repository = mapping.github_full_name; actions = []; conflicts = 1 }

  -- Whether the error has become a conflict.
  unfoldable pub record_mapping_collision : String → Error → Exec (Sys W) Bool
  record_mapping_collision kind e =
      if dry_run || not (contains_text e "UNIQUE constraint failed")
      then pure false
      else succeeded (note "mapping-collision" kind "duplicate-pairing" "occupied" e)

  -- `if err != nil { if result, handled := ...; handled { return result, nil }; return ..., err }`
  unfoldable pub unless_collision :
      String → Result (Unit {0}) → Exec (Sys W) RepositoryResult → Exec (Sys W) RepositoryResult
  unless_collision kind (ok _) next = next
  unless_collision kind (err e) next = do
    handled ← record_mapping_collision kind e
    if handled
        then pure noted
        else raise ("synchronize " <> kind <> " for " <> mapping.github_full_name <> ": " <> e)

  unfoldable pub after_releases : SyncResult → Result (Unit {0}) → Exec (Sys W) RepositoryResult
  after_releases synced (ok _) = pure (record {
    repository = mapping.github_full_name;
    actions = synced.actions;
    conflicts = length synced.conflicts;
  })
  after_releases synced (err e) =
      if dry_run
      then raise ("synchronize releases for " <> mapping.github_full_name <> ": " <> e)
      else do
        wrapped ("record release failure for " <> mapping.github_full_name)
            (note "release-error" "releases" "sync-failed" "sync-failed" e)
        pure noted

  -- What follows a successful synchronization of the refs.
  unfoldable pub sync_objects : SyncResult → Exec (Sys W) RepositoryResult
  sync_objects synced = do
    issues ← caught (parts.sync_issues mapping dry_run)
    unless_collision "issues" issues (do
      issue_mappings ← list_issue_mappings env mapping.github_id
      comments ← caught (parts.sync_comments mapping issue_mappings dry_run)
      unless_collision "comments" comments (do
        pulls ← caught (parts.sync_pull_requests mapping dry_run)
        unless_collision "pull requests" pulls (do
          pull_mappings ← list_pull_request_mappings env mapping.github_id
          remarks ← caught (parts.sync_pull_request_comments mapping pull_mappings dry_run)
          unless_collision "pull request comments" remarks (do
            releases ← caught (parts.sync_releases mapping dry_run)
            after_releases synced releases))))

  unfoldable pub after_refs : Result SyncResult → Exec (Sys W) RepositoryResult
  after_refs (ok synced) = sync_objects synced
  after_refs (err e) =
      if dry_run
      then raise ("synchronize refs for " <> mapping.github_full_name <> ": " <> e)
      else do
        wrapped ("record git-ref failure for " <> mapping.github_full_name)
            (note "git-ref-error" "git-refs" "sync-failed" "sync-failed" e)
        pure noted

  abbrev github_remote : Remote
  github_remote = record {
    url = "https://github.com/" <> mapping.github_full_name <> ".git";
    username = "x-access-token";
    token = github_token;
  }

  abbrev forgejo_remote : Remote
  forgejo_remote = record {
    url =
        forgejo_clone_base <> "/" <> mapping.forgejo_owner <> "/" <> mapping.forgejo_name <> ".git";
    username = "oauth2";
    token = forgejo_token;
  }

  unfoldable pub skip_refs : Exec (Sys W) RepositoryResult
  skip_refs = if dry_run then pure noted else do
    note "ref-sync-skipped" "git-refs" (format_int mapping.size_kb <> " KiB")
        ("limit " <> format_int max_ref_size_kb <> " KiB") "workspace-bound"
    pure noted

  -- The lock of the repository is held from here on.
  unfoldable pub reconcile_one : Exec (Sys W) RepositoryResult
  reconcile_one = do
    wrapped ("synchronize Actions secrets for " <> mapping.github_full_name)
        (parts.set_secrets mapping dry_run)
    if ltb_ℤ max_ref_size_kb mapping.size_kb then skip_refs else do
      synced ←
          caught (parts.sync_refs mapping.github_full_name github_remote forgejo_remote dry_run)
      after_refs synced
