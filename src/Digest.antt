-- ===== src/Digest.antt =====
-- The content digests: `sha256_hex` is crypto/sha256 with encoding/hex, and each `marshal` is
-- encoding/json on the struct that a `Hash` function builds. They are parameters of the model.
use forge_sync.Base.{String, Bool, List, sort_by}
use forge_sync.Base.Int.{ℤ}
use forge_sync.Gitrefs.Policy.{string_le}
use forge_sync.Model.{Issue, PullRequest, Comment, Release, Repository}

-- The struct of `issues.Hash`.
pub record IssueState : Type 0 where
  pub title : String
  pub body : String
  pub state : String
  pub labels : List String
  pub milestone : String

-- The struct of `releases.Hash`.
pub record ReleaseState : Type 0 where
  pub tag : String
  pub name : String
  pub body : String
  pub draft : Bool
  pub prerelease : Bool

-- The struct of `pullrequests.Hash`.
pub record PullRequestState : Type 0 where
  pub title : String
  pub body : String
  pub state : String
  pub head : String
  pub base : String
  pub draft : Bool
  pub merged : Bool

-- The struct of `repositoryHash`.
pub record RepositoryState : Type 0 where
  pub id : ℤ
  pub full_name : String
  pub visibility : String
  pub archived : Bool

pub record Digest : Type 0 where
  pub sha256_hex : String → String
  pub marshal_issue : IssueState → String
  pub marshal_pull_request : PullRequestState → String
  pub marshal_release : ReleaseState → String
  pub marshal_repository : RepositoryState → String

abbrev pub issue_state : Issue → IssueState
issue_state i = record {
  title = i.title;
  body = i.body;
  state = i.state;
  labels = sort_by string_le i.labels;
  milestone = i.milestone;
}

module _ (d : Digest) where
  -- `issues.Hash`
  unfoldable pub issue_hash : Issue → String
  issue_hash i = d.sha256_hex (d.marshal_issue (issue_state i))

  -- `comments.Hash`
  unfoldable pub comment_hash : Comment → String
  comment_hash c = d.sha256_hex c.body

  -- `releases.Hash`
  unfoldable pub release_hash : Release → String
  release_hash r = d.sha256_hex (
      d.marshal_release (record {
        tag = r.tag;
        name = r.name;
        body = r.body;
        draft = r.draft;
        prerelease = r.prerelease;
      }))

  -- `pullrequests.Hash`
  unfoldable pub pull_request_hash : PullRequest → String
  pull_request_hash p = d.sha256_hex (
      d.marshal_pull_request (record {
        title = p.title;
        body = p.body;
        state = p.state;
        head = p.head;
        base = p.base;
        draft = p.draft;
        merged = p.merged;
      }))

  -- `repositoryHash`
  unfoldable pub repository_hash : Repository → String
  repository_hash r = d.sha256_hex (
      d.marshal_repository (record {
        id = r.id;
        full_name = r.full_name;
        visibility = r.visibility;
        archived = r.archived;
      }))
