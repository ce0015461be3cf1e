-- ===== src/Engine.antt =====
-- internal/reconcile/engine.go: the engine over the reconcilers. `Parts` is what it calls of them.
pub mod Repository
pub mod Cycle
pub mod Pool
pub mod Assembly
pub mod Keeps
pub mod Results
pub mod Resilience
use forge_sync.Base.{ℕ, String, ◌<>◌, Bool, true, false, List, ◌==◌, string_eq, if◌then◌else◌}
use forge_sync.Base.Int.{ℤ, pos, positive}
use forge_sync.Base.Text.{Unicode, trim_right, trim_suffix}
use forge_sync.Model.{IssueMapping, PullRequestMapping, RepositoryMapping, Inventory}
use forge_sync.Result.{Result}
use forge_sync.Effect.{Exec}
use forge_sync.State.Db.{Env, Sys}
use forge_sync.Gitrefs.Policy.{Action}
use forge_sync.Gitrefs.Sync.Run.{Remote}
use forge_sync.Gitrefs.Sync.Cycle.{SyncResult}

pub record RepositoryResult : Type 0 where
  pub repository : String
  pub actions : List Action
  pub conflicts : ℕ

pub record Report : Type 0 where
  pub inventory : Inventory
  pub repositories : List RepositoryResult

-- The methods of the reconcilers that the engine holds.
pub record Parts (W : Type 0) : Type 0 where
  pub discover : List String → Bool → Sys W → (Inventory × Result (Unit {0})) × Sys W
  pub set_secrets : RepositoryMapping → Bool → Exec (Sys W) (Unit {0})
  pub sync_refs : String → Remote → Remote → Bool → Exec (Sys W) SyncResult
  pub sync_issues : RepositoryMapping → Bool → Exec (Sys W) (Unit {0})
  pub sync_comments : RepositoryMapping → List IssueMapping → Bool → Exec (Sys W) (Unit {0})
  pub sync_pull_requests : RepositoryMapping → Bool → Exec (Sys W) (Unit {0})
  pub sync_pull_request_comments :
      RepositoryMapping → List PullRequestMapping → Bool → Exec (Sys W) (Unit {0})
  pub sync_releases : RepositoryMapping → Bool → Exec (Sys W) (Unit {0})

-- The struct `Engine`, with what its methods need of the outside, and without its locks and its number of
-- workers, which Engine/Pool takes. `decode` reads `repository.full_name`
-- of a payload, and `marshal_report` is `json.Marshal`.
pub record Engine (W : Type 0) : Type 0 where
  pub env : Env W
  pub parts : Parts W
  pub equal_fold : String → String → Bool
  pub marshal_report : Report → String
  pub decode : List ℕ → Result String
  pub namespaces : List String
  pub github_token : String
  pub forgejo_token : String
  pub forgejo_clone_base : String
  pub max_ref_size_kb : ℤ

abbrev pub default_max_ref_size_kb : ℤ
default_max_ref_size_kb = pos 8388608

-- What `New` computes of the address of Forgejo's API, and of the limit on sizes.
unfoldable pub clone_base : String → String
clone_base forgejo_api = trim_suffix (trim_right b'/' forgejo_api) "/api/v1"

unfoldable pub ref_size_limit : ℤ → ℤ
ref_size_limit configured = if positive configured then configured else default_max_ref_size_kb
