-- ===== src/PullRequests/Cycle.antt =====
-- internal/pullrequests/reconcile.go: Reconcile, from the two lists to the last leftover.
use forge_sync.Base.{Bool, List, []}
use forge_sync.Model.{PullRequest, RepositoryMapping}
use forge_sync.Effect.{Exec, pure, lift, wrapped, ◌>>=◌, ◌>>◌, fold}
use forge_sync.State.Db.{Sys}
use forge_sync.State.Mappings.{list_pull_request_mappings}
use forge_sync.Matching.{by_id, unconsumed, external, identity, record_pair}
use forge_sync.PullRequests.{
  Reconciler, Scope, validate_pull_requests, unique_hash_pairs, index_title_pairs,
  pull_request_identified,
}
use forge_sync.PullRequests.Switch.{reconcile_mapping}
use forge_sync.PullRequests.Create.{
  write_hash_pair, write_index_pair, create_on_forgejo, create_on_github,
}

module _ {W : Type 0} (r : Reconciler W) where
  open r use {env, digest, unicode, shuffle, github, forgejo}

  -- The loops of Reconcile, after both lists have been read and validated.
  unfoldable pub reconcile_lists :
      Scope → List PullRequest → List PullRequest → Exec (Sys W) (Unit {0})
  reconcile_lists scope github_all forgejo_all = do
    mappings ← list_pull_request_mappings env scope.repository.github_id
    mapped ←
        fold
          (λ m c.
            reconcile_mapping r scope m (by_id github_all m.github_id)
              (by_id forgejo_all m.forgejo_id) c)
          mappings (record { on_github = []; on_forgejo = [] })
    hashed ←
        fold (record_pair scope.dry_run (write_hash_pair r scope) github_all forgejo_all)
          (shuffle (
            unique_hash_pairs digest (unconsumed github_all mapped.on_github)
              (unconsumed forgejo_all mapped.on_forgejo)))
          mapped
    indexed ←
        fold (record_pair scope.dry_run (write_index_pair r scope) github_all forgejo_all)
          (shuffle (
            index_title_pairs unicode (unconsumed github_all hashed.on_github)
              (unconsumed forgejo_all hashed.on_forgejo)))
          hashed
    copied ←
        fold (create_on_forgejo r scope forgejo_all) (unconsumed github_all indexed.on_github)
          indexed
    _ ← fold (create_on_github r scope github_all) (unconsumed forgejo_all copied.on_forgejo) copied
    pure tt

  unfoldable pub reconcile : RepositoryMapping → Bool → Exec (Sys W) (Unit {0})
  reconcile repository dry_run = do
    (owner, name) ← lift (identity repository)
    github_all ←
        wrapped "list GitHub pull requests" (external (github.list_pull_requests owner name))
    forgejo_all ←
        wrapped "list Forgejo pull requests"
          (external (forgejo.list_pull_requests repository.forgejo_owner repository.forgejo_name))
    wrapped "invalid GitHub pull request response" (lift (validate_pull_requests github_all))
    wrapped "invalid Forgejo pull request response" (lift (validate_pull_requests forgejo_all))
    reconcile_lists
        (record { repository = repository; owner = owner; name = name; dry_run = dry_run })
        github_all forgejo_all
