-- ===== src/Engine/Assembly.antt =====
-- The engine as cmd/forge-sync/main.go puts it together: every part is the reconciler of its package.
use forge_sync.Base.{ℕ, String, List, []}
use forge_sync.Base.Dict.{Dict}
use forge_sync.Base.Int.{ℤ}
use forge_sync.Base.Text.{Unicode}
use forge_sync.Model.{ActionSecret}
use forge_sync.Result.{Result}
use forge_sync.Digest.{Digest}
use forge_sync.State.Db.{Db, Env}
use forge_sync.State.Rules.{StoreRules, Within-external}
use forge_sync.Matching.{external}
use forge_sync.Gitrefs.Sync.Run.{Host}
use forge_sync.Gitrefs.Sync.Cycle.{Synchronizer, sync}
use forge_sync.Gitrefs.Sync.Keeps.{Within-sync}
use forge_sync.Issues.{IssueForge}
use forge_sync.Issues.{reconcile as reconcile_issues}
use forge_sync.Issues.Keeps.{Within-reconcile as Within-issues}
use forge_sync.Comments.{CommentForge}
use forge_sync.Comments.{reconcile as reconcile_comments, reconcile_pull_requests}
use forge_sync.Comments.Keeps.{
  Within-reconcile as Within-comments, Within-reconcile_pull_requests as Within-remarks,
}
use forge_sync.Releases.{ReleaseForge}
use forge_sync.Releases.{reconcile as reconcile_releases}
use forge_sync.Releases.Keeps.{Within-reconcile as Within-releases}
use forge_sync.PullRequests.{PullRequestForge}
use forge_sync.PullRequests.{Reconciler as PullReconciler}
use forge_sync.PullRequests.Cycle.{reconcile as reconcile_pulls}
use forge_sync.PullRequests.Keeps.{Within-reconcile as Within-pulls}
use forge_sync.Repositories.{RepositoryGithub, RepositoryForgejo}
use forge_sync.Repositories.{Reconciler as RepositoryReconciler}
use forge_sync.Repositories.Cycle.{discover}
use forge_sync.Repositories.Keeps.{Within-discover}
use forge_sync.Secrets.{SecretForge}
use forge_sync.Secrets.{reconcile as set_secrets_of, new as new_secrets}
use forge_sync.Engine.{Parts, Report, Engine, clone_base, ref_size_limit}
use forge_sync.Engine.Cycle.{no_inventory}
use forge_sync.Engine.Keeps.{PartsKeep}

-- What the reconcilers are built from: the outside, the clients of the two forges, and the configuration.
pub record Setup (W Bytes : Type 0) : Type 0 where
  pub env : Env W
  pub host : Host W
  pub digest : Digest
  pub unicode : Unicode
  pub shuffle : Dict ℤ ℤ → Dict ℤ ℤ
  pub github_issues : IssueForge W
  pub forgejo_issues : IssueForge W
  pub github_comments : CommentForge W
  pub forgejo_comments : CommentForge W
  pub github_pulls : PullRequestForge W
  pub forgejo_pulls : PullRequestForge W
  pub github_releases : ReleaseForge W Bytes
  pub forgejo_releases : ReleaseForge W Bytes
  pub github_repositories : RepositoryGithub W
  pub forgejo_repositories : RepositoryForgejo W
  pub forgejo_secrets : SecretForge W
  pub asset_limit : ℤ
  pub action_secrets : List ActionSecret
  pub owner_map : Dict String String
  pub repo_map : Dict String String
  pub marshal_report : Report → String
  pub decode : List ℕ → Result String
  pub namespaces : List String
  pub github_token : String
  pub forgejo_token : String
  pub forgejo_api : String
  pub max_ref_size_kb : ℤ

module _ {W Bytes : Type 0} (setup : Setup W Bytes) where
  open setup use {
    env, host, digest, unicode, shuffle, github_issues, forgejo_issues, github_comments,
    forgejo_comments, github_pulls, forgejo_pulls, github_releases, forgejo_releases,
    github_repositories, forgejo_repositories, forgejo_secrets, asset_limit, action_secrets,
  }

  abbrev pub repository_part : RepositoryReconciler W
  repository_part = record {
    env = env;
    digest = digest;
    unicode = unicode;
    github = github_repositories;
    forgejo = forgejo_repositories;
    github_token = setup.github_token;
    owner_map = setup.owner_map;
    repo_map = setup.repo_map;
  }

  abbrev pub pull_part : PullReconciler W
  pull_part = record {
    env = env;
    digest = digest;
    unicode = unicode;
    shuffle = shuffle;
    github = github_pulls;
    forgejo = forgejo_pulls;
  }

  abbrev pub git_part : Synchronizer W
  git_part = record { env = env; host = host; unicode = unicode }

  unfoldable pub parts : Parts W
  parts = record {
    discover = λ namespaces dry_run s.
        let (outcome, t) =
          discover repository_part dry_run namespaces
            (record { sys = s; inventory = no_inventory; counted = [] }) in
        ((t.inventory, outcome), t.sys);
    set_secrets = λ m dry_run.
        external (set_secrets_of forgejo_secrets (new_secrets action_secrets) m dry_run);
    sync_refs = λ name g f dry_run. sync git_part name g f dry_run;
    sync_issues = reconcile_issues env digest shuffle github_issues forgejo_issues;
    sync_comments = reconcile_comments env digest shuffle github_comments forgejo_comments;
    sync_pull_requests = reconcile_pulls pull_part;
    sync_pull_request_comments =
        reconcile_pull_requests env digest shuffle github_comments forgejo_comments;
    sync_releases =
        reconcile_releases env digest shuffle github_releases forgejo_releases asset_limit;
  }

  unfoldable pub engine : Engine W
  engine = record {
    env = env;
    parts = parts;
    equal_fold = unicode.equal_fold;
    marshal_report = setup.marshal_report;
    decode = setup.decode;
    namespaces = setup.namespaces;
    github_token = setup.github_token;
    forgejo_token = setup.forgejo_token;
    forgejo_clone_base = clone_base setup.forgejo_api;
    max_ref_size_kb = ref_size_limit setup.max_ref_size_kb;
  }

  -- The reconcilers meet the laws that the engine asks of its parts.
  pub parts-keep : {R : Db → Db → Type 0} → StoreRules R → PartsKeep R engine.parts
  unfolding engine parts
  parts-keep rules = record {
    discover =
        λ namespaces dry_run s. (Within-discover rules repository_part dry_run namespaces).at _;
    set_secrets = λ m dry_run. Within-external rules env _;
    sync_refs = λ name g f dry_run. Within-sync rules git_part name g f dry_run;
    sync_issues = Within-issues rules env digest shuffle github_issues forgejo_issues;
    sync_comments = Within-comments rules env digest shuffle github_comments forgejo_comments;
    sync_pull_requests = Within-pulls rules pull_part;
    sync_pull_request_comments =
        Within-remarks rules env digest shuffle github_comments forgejo_comments;
    sync_releases =
        Within-releases rules env digest shuffle github_releases forgejo_releases asset_limit;
  }
