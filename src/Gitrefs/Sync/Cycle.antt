-- ===== src/Gitrefs/Sync/Cycle.antt =====
-- internal/gitrefs/sync.go: Sync, from the check of the remotes to the last push. The result that
-- comes with an error is left out: no caller reads it. The ancestry questions and the clock of one plan
-- are asked in the state that the plan starts in.
use forge_sync.Base.{String, ◌<>◌, Bool, List, [], ◌∷◌, if◌then◌else◌}
use forge_sync.Base.Text.{Unicode}
use forge_sync.Model.{Conflict}
use forge_sync.Result.{ok, err}
use forge_sync.Effect.{Exec, pure, lift, wrapped, ◌>>=◌, ◌>>◌, for_each}
use forge_sync.State.Db.{Env, Sys}
use forge_sync.State.Conflicts.{add_conflict}
use forge_sync.Matching.{external}
use forge_sync.Gitrefs.Policy.{Forge, github, forgejo, Action, Refs, plan}
use forge_sync.Gitrefs.Sync.Run.{
  Remote, Host, git, validate, fetch_with_retry, local_refs, ancestry, forge_name, no_remote,
}

-- The struct `Result`.
pub record SyncResult : Type 0 where
  pub actions : List Action
  pub conflicts : List Conflict

-- The struct `Synchronizer`, with what its methods need of the outside. Its timeout is part of what the
-- outside answers.
pub record Synchronizer (W : Type 0) : Type 0 where
  pub env : Env W
  pub host : Host W
  pub unicode : Unicode

-- The remote of a forge, given GitHub's and Forgejo's.
abbrev pub target_of : Remote → Remote → Forge → Remote
target_of on_github on_forgejo github = on_github
target_of on_github on_forgejo forgejo = on_forgejo

-- `defer cleanup()`
abbrev pub deferred : {W A : Type 0} → (W → W) → Exec (Sys W) A → Exec (Sys W) A
deferred cleanup m s = let (r, s') = m s in (r, record s' { world = cleanup s'.world })

module _ {W : Type 0} (y : Synchronizer W) (repository : String)
    (on_github on_forgejo : Remote) where
  open y use {env, host, unicode}

  unfoldable pub plan_from : String → Refs → Refs → Exec W SyncResult
  plan_from git_dir github_refs forgejo_refs w = (
    elim (plan repository (ancestry host unicode git_dir w) (λ ref. (env.now w).0) github_refs
        forgejo_refs) [
          | err e ↦ err e
          | ok (actions, conflicts) ↦ ok (record { actions = actions; conflicts = conflicts })
        ],
    w,
  )

  -- From `git init` to the plan.
  unfoldable pub plan_in : String → String → Exec W SyncResult
  plan_in workspace git_dir = do
    _ ←
        wrapped "initialize temporary repository"
          (git host unicode workspace no_remote ("init" ∷ "--bare" ∷ git_dir ∷ []))
    fetch_with_retry host unicode git_dir github on_github
    fetch_with_retry host unicode git_dir forgejo on_forgejo
    github_refs ← local_refs host unicode git_dir github
    forgejo_refs ← local_refs host unicode git_dir forgejo
    plan_from git_dir github_refs forgejo_refs

  unfoldable pub push_action : String → Action → Exec W (Unit {0})
  push_action git_dir a = do
    _ ← wrapped ("push " <> a.ref <> " to " <> forge_name a.to) (
        git host unicode git_dir (target_of on_github on_forgejo a.to) (
          "--git-dir"
          ∷ git_dir
          ∷ "push"
          ∷ "--porcelain"
          ∷ (target_of on_github on_forgejo a.to).url
          ∷ (a.sha <> ":" <> a.ref)
          ∷ []))
    pure tt

  -- The two loops of a run that is not dry.
  unfoldable pub carry_out : String → SyncResult → Exec (Sys W) SyncResult
  carry_out git_dir result = do
    for_each (add_conflict env) result.conflicts
    for_each (λ a. external (push_action git_dir a)) result.actions
    pure result

  unfoldable pub sync_in : Bool → String → Exec (Sys W) SyncResult
  sync_in dry_run workspace =
      let git_dir = workspace <> "/repository.git" in
      do
        external (host.chmod workspace 448)
        result ← external (plan_in workspace git_dir)
        if dry_run then pure result else carry_out git_dir result

  unfoldable pub sync : Bool → Exec (Sys W) SyncResult
  sync dry_run = do
    wrapped "GitHub remote" (lift (validate host unicode on_github))
    wrapped "Forgejo remote" (lift (validate host unicode on_forgejo))
    workspace ← external (host.mkdir_temp "forge-sync-git-")
    deferred (host.remove_all workspace) (sync_in dry_run workspace)
