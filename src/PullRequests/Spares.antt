-- ===== src/PullRequests/Spares.antt =====
-- Which side of a mapped pair of pull requests a run leaves alone.
use forge_sync.Base.{◌≡◌, ◌≢◌, string_eq, arith}
use forge_sync.Model.{PullRequest, PullRequestMapping}
use forge_sync.Digest.{pull_request_hash}
use forge_sync.PullRequests.{PullRequestForge, Reconciler, Scope, record_conflict}
use forge_sync.PullRequests.Switch.{
  advance, mapping_conflict, copy_to_forgejo, copy_to_github, updated_forgejo, updated_github,
  converged, compare_pair,
}

module _ {W : Type 0} (r : Reconciler W) (scope : Scope) (m : PullRequestMapping)
    (g f : PullRequest) where
  -- If the GitHub pull request is not in the last known state, it is not overwritten: the GitHub client is
  -- not called, so any other client gives the same result.
  pub compare_pulls_spares_github :
      (other : PullRequestForge W)
      → pull_request_hash r.digest g ≢ m.last_state_hash
      → compare_pair r scope m g f ≡ compare_pair (record r { github = other }) scope m g f
  unfolding compare_pair copy_to_forgejo copy_to_github advance mapping_conflict record_conflict
      updated_forgejo updated_github converged
  compare_pulls_spares_github other h = ground arith

  -- If neither pull request is in the last known state, neither is overwritten: neither client is called,
  -- so any other clients give the same result.
  pub compare_pulls_spares_both :
      (other other' : PullRequestForge W)
      → pull_request_hash r.digest g ≢ m.last_state_hash
      → pull_request_hash r.digest f ≢ m.last_state_hash
      → compare_pair r scope m g f
        ≡ compare_pair (record r { github = other; forgejo = other' }) scope m g f
  unfolding compare_pair copy_to_forgejo copy_to_github advance mapping_conflict record_conflict
  compare_pulls_spares_both other other' h k = ground arith
