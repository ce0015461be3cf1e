-- ===== src/Repositories/Cycle.antt =====
-- internal/repository/reconcile.go: Discover, from the first namespace to the count of conflicts.
use forge_sync.Base.{
  suc, ◌+◌, String, ◌<>◌, Bool, not, ◌&&◌, ◌||◌, Option, none, some, List, [], ◌==◌, string_eq,
  if◌then◌else◌, length, bool_eq,
}
use forge_sync.Base.Dict.{lookup}
use forge_sync.Base.Int.{format_int}
use forge_sync.Model.{Repository, RepositoryMapping, visibility_public}
use forge_sync.Effect.{Exec, pure, raise, lift, wrapped, ◌>>=◌, ◌>>◌, fold, for_each}
use forge_sync.State.Db.{Sys}
use forge_sync.State.Mappings.{upsert_repository, repository_by_github_id}
use forge_sync.State.Conflicts.{list_conflicts}
use forge_sync.Matching.{external}
use forge_sync.Repositories.{
  Reconciler, Tally, ByName, validate_repository, on_sys, count, first_time, namespace_allowed,
  forgejo_owner, forgejo_target, index_names, mapping_for_pair, mapping_for,
}

-- `if !dryRun { ... }`
abbrev pub unless : {S : Type 0} → Bool → Exec S (Unit {0}) → Exec S (Unit {0})
unless dry_run m = if dry_run then pure tt else m

module _ {W : Type 0} (r : Reconciler W) (dry_run : Bool) where
  open r use {env, unicode, owner_map, repo_map, github, forgejo, github_token}

  unfoldable pub write_pair : Repository → String → String → Exec (Sys W) (Unit {0})
  write_pair source owner name = do
    m ← mapping_for_pair r source owner name
    upsert_repository env m

  unfoldable pub keep_identity :
      RepositoryMapping → Repository → Repository → Exec (Sys W) (Unit {0})
  keep_identity m source target =
      if not (m.forgejo_owner == target.owner) || not (m.forgejo_name == target.name)
      then unless dry_run (
          wrapped ("update identity for GitHub repository " <> format_int source.id) (
            external (
              forgejo.update_repository_identity m.forgejo_owner m.forgejo_name target.owner
                target.name)))
      else pure tt

  unfoldable pub keep_settings :
      RepositoryMapping → Repository → Repository → Exec (Sys W) (Unit {0})
  keep_settings m source target =
      if not (m.visibility == source.visibility) || not (m.archived == source.archived)
      then unless dry_run (
          wrapped ("update settings for " <> source.full_name)
            (external (forgejo.update_repository_settings target)))
      else pure tt

  -- A repository that has a mapping.
  unfoldable pub refresh_mapped :
      RepositoryMapping → Repository → Repository → Exec (Sys W) (Unit {0})
  refresh_mapped m source target = do
    keep_identity m source target
    keep_settings m source target
    unless dry_run (write_pair source target.owner target.name)

  -- A public repository that is already there is closed before it is mapped to one that is not public.
  unfoldable pub fail_closed : Repository → Repository → Repository → Exec (Sys W) (Unit {0})
  fail_closed existing source target =
      if existing.visibility == visibility_public && not (source.visibility == visibility_public)
      then unless dry_run (
          wrapped ("fail closed existing repository " <> target.full_name)
            (external (forgejo.update_repository_settings target)))
      else pure tt

  unfoldable pub pair_existing : Repository → Repository → Repository → Exec (Sys W) (Unit {0})
  pair_existing existing source target = do
    fail_closed existing source target
    unless dry_run (write_pair source existing.owner existing.name)

  -- The GitHub side of the mapping is what was discovered.
  unfoldable pub migrate : Repository → Repository → Exec (Sys W) (Unit {0})
  migrate source target = do
    migrated ← external (forgejo.migrate_repository target github_token)
    m ← mapping_for r migrated
    upsert_repository env (record m {
      github_id = source.id;
      github_full_name = source.full_name;
      forgejo_owner = target.owner;
      forgejo_name = target.name;
      visibility = source.visibility;
      archived = source.archived;
    })

  abbrev count_in_sync : Exec (Tally W) (Unit {0})
  count_in_sync = count (λ i. record i { in_sync = suc i.in_sync })

  unfoldable pub pair_or_migrate :
      Option Repository → Repository → Repository → Exec (Tally W) (Unit {0})
  pair_or_migrate (some existing) source target = do
    on_sys (pair_existing existing source target)
    count_in_sync
  pair_or_migrate none source target = do
    count (λ i. record i { missing = suc i.missing })
    unless dry_run (on_sys (migrate source target))

  unfoldable pub reconcile_target :
      ByName → Option RepositoryMapping → Repository → Repository → Exec (Tally W) (Unit {0})
  reconcile_target by_name (some m) source target = do
    on_sys (refresh_mapped m source target)
    count_in_sync
  reconcile_target by_name none source target =
      pair_or_migrate (lookup (unicode.to_lower target.full_name) by_name) source target

  -- `target`: the name of the source, whatever name the full name has.
  abbrev target_of : Repository → String → Repository
  target_of source namespace_owner =
      let (owner, name) = forgejo_target repo_map source namespace_owner in
      record source { owner = owner; full_name = owner <> "/" <> name }

  unfoldable pub reconcile_source :
      String → String → ByName → Repository → Exec (Tally W) (Unit {0})
  reconcile_source namespace namespace_owner by_name source = do
    lift (validate_repository source)
    if not (source.owner == namespace) then pure tt else do
      mapped ← on_sys (repository_by_github_id env source.id)
      reconcile_target by_name mapped source (target_of source namespace_owner)

  -- A redirect to another owner has that owner's repositories listed, once.
  unfoldable pub list_redirected : String → String → Repository → ByName → Exec (Tally W) ByName
  list_redirected namespace namespace_owner source by_name =
      let owner = (forgejo_target repo_map source namespace_owner).0 in
      if not (source.owner == namespace) || owner == namespace_owner then pure by_name else do
        fresh ← first_time ("listed:" <> owner)
        if not fresh then pure by_name else do
          extra ←
              wrapped ("enumerate Forgejo owner " <> owner)
                (on_sys (external (forgejo.list_repositories owner)))
          pure (index_names unicode extra by_name)

  unfoldable pub discover_namespace : String → Exec (Tally W) (Unit {0})
  discover_namespace namespace =
      let owner = forgejo_owner owner_map namespace in
      if not (namespace_allowed namespace)
      then raise ("namespace " <> namespace <> " is outside the allowed set")
      else do
        github_all ←
            wrapped ("enumerate GitHub namespace " <> namespace)
              (on_sys (external (github.list_repositories namespace)))
        forgejo_all ←
            wrapped ("enumerate Forgejo owner " <> owner)
              (on_sys (external (forgejo.list_repositories owner)))
        count (λ i. record i { github_repositories = i.github_repositories + length github_all })
        fresh ← first_time owner
        if fresh
            then count (λ i. record i {
              forgejo_repositories = i.forgejo_repositories + length forgejo_all;
            })
            else pure tt
        by_name ←
            fold (list_redirected namespace owner) github_all (index_names unicode forgejo_all [])
        for_each (reconcile_source namespace owner by_name) github_all

  unfoldable pub discover : List String → Exec (Tally W) (Unit {0})
  discover namespaces = do
    for_each discover_namespace namespaces
    conflicts ← on_sys (list_conflicts env)
    count (λ i. record i { conflicted = length conflicts })
