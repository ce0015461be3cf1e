-- ===== src/PullRequests/Switch.antt =====
-- internal/pullrequests/reconcile.go: what a run does to one mapped pair of pull requests.
use forge_sync.Base.{String, ◌<>◌, not, ◌&&◌, Option, some, ◌==◌, string_eq, if◌then◌else◌}
use forge_sync.Base.Int.{pos, int_eq, format_int}
use forge_sync.Model.{PullRequest, PullRequestMapping}
use forge_sync.Effect.{Exec, pure, raise, ◌>>=◌, ◌>>◌}
use forge_sync.Digest.{pull_request_hash}
use forge_sync.State.Db.{Sys, time_now}
use forge_sync.State.Mappings.{upsert_pull_request_mapping}
use forge_sync.Matching.{Consumed, consume, object_key}
use forge_sync.PullRequests.{
  Reply, done, failed, Reconciler, Scope, attempt, cannot_reopen, has_status, is, state_or_missing,
  record_conflict,
}

module _ {W : Type 0} (r : Reconciler W) (scope : Scope) where
  open r use {env, digest, github, forgejo}
  open scope use {repository, owner, name, dry_run}

  unfoldable pub advance : PullRequestMapping → String → Exec (Sys W) (Unit {0})
  advance m hash = do
    now ← time_now env
    upsert_pull_request_mapping env (record m { last_state_hash = hash; updated_at = now })

  unfoldable pub mapping_conflict :
      String → PullRequestMapping → String → String → Exec (Sys W) (Unit {0})
  mapping_conflict kind m github_state forgejo_state =
      record_conflict r scope kind (object_key m.github_id m.forgejo_id) github_state forgejo_state
        m.last_state_hash

  -- What follows the update of the Forgejo side. A pull request that is locked there (412) becomes a
  -- conflict, and counts as copied.
  unfoldable pub updated_forgejo :
      PullRequestMapping → PullRequest → PullRequest → Reply PullRequest → Exec (Sys W) (Unit {0})
  updated_forgejo m g f (done _) = advance m (pull_request_hash digest g)
  updated_forgejo m g f (failed e) =
      if has_status (pos 412) e
      then (do
        mapping_conflict "pull-request-locked" m (pull_request_hash digest g)
            (pull_request_hash digest f)
        advance m (pull_request_hash digest g))
      else raise
          ("copy GitHub pull request " <> format_int m.github_id <> " to Forgejo: " <> e.text)

  unfoldable pub copy_to_forgejo :
      PullRequestMapping → PullRequest → PullRequest → Exec (Sys W) (Unit {0})
  copy_to_forgejo m g f = do
    reply ← attempt (
        forgejo.update_pull_request repository.forgejo_owner repository.forgejo_name m.forgejo_index
          g)
    updated_forgejo m g f reply

  unfoldable pub converged :
      PullRequestMapping → PullRequest → Reply PullRequest → Exec (Sys W) (Unit {0})
  converged m g (done _) = advance m (pull_request_hash digest g)
  converged m g (failed e) = raise (
      "converge Forgejo pull request " <> format_int m.forgejo_id <> " to GitHub state: " <> e.text)

  -- What follows the update of the GitHub side. If GitHub cannot reopen the pull request, Forgejo's is
  -- given the title, the body and the state of GitHub's.
  unfoldable pub updated_github :
      PullRequestMapping → PullRequest → PullRequest → Reply PullRequest → Exec (Sys W) (Unit {0})
  updated_github m g f (done _) = advance m (pull_request_hash digest f)
  updated_github m g f (failed e) =
      if is cannot_reopen e
      then (do
        reply ← attempt (
            forgejo.update_pull_request repository.forgejo_owner repository.forgejo_name
              m.forgejo_index (record f { title = g.title; body = g.body; state = g.state }))
        converged m g reply)
      else raise
          ("copy Forgejo pull request " <> format_int m.forgejo_id <> " to GitHub: " <> e.text)

  unfoldable pub copy_to_github :
      PullRequestMapping → PullRequest → PullRequest → Exec (Sys W) (Unit {0})
  copy_to_github m g f = do
    reply ← attempt (github.update_pull_request owner name m.github_index f)
    updated_github m g f reply

  -- The `switch` on the two hashes of a mapped pair.
  unfoldable pub compare_pair :
      PullRequestMapping → PullRequest → PullRequest → Exec (Sys W) (Unit {0})
  compare_pair m g f =
      if pull_request_hash digest g == pull_request_hash digest f
      then if not dry_run && not (m.last_state_hash == pull_request_hash digest g)
        then advance m (pull_request_hash digest g)
        else pure tt
      else if pull_request_hash digest f == m.last_state_hash
      then if dry_run then pure tt else copy_to_forgejo m g f
      else if pull_request_hash digest g == m.last_state_hash
      then if dry_run then pure tt else copy_to_github m g f
      else if dry_run
      then pure tt
      else mapping_conflict "pull-request" m (pull_request_hash digest g)
          (pull_request_hash digest f)

  -- The body of the loop over the mappings, given what `byID` holds for the two ids.
  unfoldable pub reconcile_mapping :
      PullRequestMapping
      → Option PullRequest
      → Option PullRequest
      → Consumed
      → Exec (Sys W) Consumed
  reconcile_mapping m (some g) (some f) consumed = do
    compare_pair m g f
    pure (consume g.id f.id consumed)
  reconcile_mapping m found_github found_forgejo consumed = if dry_run then pure consumed else do
    mapping_conflict "pull-request-missing" m (state_or_missing digest found_github)
        (state_or_missing digest found_forgejo)
    pure consumed
