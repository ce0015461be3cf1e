-- ===== src/Model.antt =====
-- The records of internal/model/model.go. An int64 is a `ℤ`; a time is a number of nanoseconds,
-- and 0 is Go's zero time.
use forge_sync.Base.{ℕ, String, Bool, Option, List}
use forge_sync.Base.Int.{ℤ}

abbrev pub Time : Type 0
Time = ℕ

-- A string in the source: any text can come from a forge.
abbrev pub Visibility : Type 0
Visibility = String

abbrev pub visibility_private : Visibility
visibility_private = "private"

abbrev pub visibility_internal : Visibility
visibility_internal = "internal"

abbrev pub visibility_public : Visibility
visibility_public = "public"

pub record Repository : Type 0 where
  pub id : ℤ
  pub owner : String
  pub name : String
  pub full_name : String
  pub clone_url : String
  pub default_branch : String
  pub visibility : Visibility
  pub archived : Bool
  pub size_kb : ℤ
  pub updated_at : Time

pub record RepositoryMapping : Type 0 where
  pub github_id : ℤ
  pub github_full_name : String
  pub forgejo_owner : String
  pub forgejo_name : String
  pub visibility : Visibility
  pub archived : Bool
  pub size_kb : ℤ
  pub last_state_hash : String
  pub updated_at : Time

pub record ActionSecret : Type 0 where
  pub repository : String
  pub name : String
  pub value : String

pub record Issue : Type 0 where
  pub id : ℤ
  pub index : ℤ
  pub title : String
  pub body : String
  pub state : String
  pub labels : List String
  pub milestone : String
  pub updated_at : Time

pub record PullRequest : Type 0 where
  pub id : ℤ
  pub index : ℤ
  pub title : String
  pub body : String
  pub state : String
  pub head : String
  pub base : String
  pub draft : Bool
  pub merged : Bool
  pub updated_at : Time

pub record Comment : Type 0 where
  pub id : ℤ
  pub issue_id : ℤ
  pub body : String
  pub updated_at : Time

pub record IssueMapping : Type 0 where
  pub repository_github_id : ℤ
  pub github_id : ℤ
  pub forgejo_id : ℤ
  pub github_index : ℤ
  pub forgejo_index : ℤ
  pub last_state_hash : String
  pub updated_at : Time

pub record PullRequestMapping : Type 0 where
  pub repository_github_id : ℤ
  pub github_id : ℤ
  pub forgejo_id : ℤ
  pub github_index : ℤ
  pub forgejo_index : ℤ
  pub last_state_hash : String
  pub updated_at : Time

pub record CommentMapping : Type 0 where
  pub repository_github_id : ℤ
  pub issue_github_id : ℤ
  pub github_id : ℤ
  pub forgejo_id : ℤ
  pub last_state_hash : String
  pub updated_at : Time

pub record ReleaseAsset : Type 0 where
  pub id : ℤ
  pub name : String
  pub size : ℤ

pub record Release : Type 0 where
  pub id : ℤ
  pub tag : String
  pub name : String
  pub body : String
  pub draft : Bool
  pub prerelease : Bool
  pub created_at : Time
  pub assets : List ReleaseAsset

pub record ReleaseMapping : Type 0 where
  pub repository_github_id : ℤ
  pub github_id : ℤ
  pub forgejo_id : ℤ
  pub tag : String
  pub last_state_hash : String
  pub updated_at : Time

pub record Ref : Type 0 where
  pub name : String
  pub sha : String

pub record Conflict : Type 0 where
  pub id : ℤ
  pub kind : String
  pub repository : String
  pub object_key : String
  pub github_state : String
  pub forgejo_state : String
  pub last_known_state : String
  pub created_at : Time
  pub resolved_at : Option Time

-- The counts of a discovery.
pub record Inventory : Type 0 where
  pub github_repositories : ℕ
  pub forgejo_repositories : ℕ
  pub missing : ℕ
  pub in_sync : ℕ
  pub conflicted : ℕ
