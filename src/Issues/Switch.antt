-- ===== src/Issues/Switch.antt =====
-- What the issue reconciler does to one mapped pair of issues: the two hashes and the last known one.
use forge_sync.Base.{String, Bool, ◌≡◌, ◌≢◌, string_eq, arith}
use forge_sync.Base.Dict.{Dict}
use forge_sync.Base.Int.{ℤ}
use forge_sync.Model.{Issue, IssueMapping, RepositoryMapping}
use forge_sync.Digest.{Digest, issue_hash}
use forge_sync.State.Db.{Env}
use forge_sync.Issues.{IssueForge, conflict, copy_to_forgejo, copy_to_github, advance, compare_pair}

module _ {W : Type 0} (env : Env W) (digest : Digest) (shuffle : Dict ℤ ℤ → Dict ℤ ℤ)
    (github forgejo : IssueForge W) (repository : RepositoryMapping) (owner name : String)
    (dry_run : Bool) (m : IssueMapping) (g f : Issue) where
  compare_pair_spares :
      (issue_hash digest f ≢ m.last_state_hash
        → (other : IssueForge W)
        → compare_pair env digest shuffle github forgejo repository owner name dry_run m g f
          ≡ compare_pair env digest shuffle github other repository owner name dry_run m g f)
      × (issue_hash digest g ≢ m.last_state_hash
          → (other : IssueForge W)
          → compare_pair env digest shuffle github forgejo repository owner name dry_run m g f
            ≡ compare_pair env digest shuffle other forgejo repository owner name dry_run m g f)
  unfolding compare_pair copy_to_github copy_to_forgejo advance conflict
  compare_pair_spares = (λ h other. ground arith, λ h other. ground arith)

  -- If the Forgejo issue is not in the last known state, it is not overwritten: the Forgejo client is not
  -- called, so any other client gives the same result.
  pub compare_pair_spares_forgejo :
      issue_hash digest f ≢ m.last_state_hash
      → (other : IssueForge W)
      → compare_pair env digest shuffle github forgejo repository owner name dry_run m g f
        ≡ compare_pair env digest shuffle github other repository owner name dry_run m g f
  compare_pair_spares_forgejo = compare_pair_spares.0

  -- If the GitHub issue is not in the last known state, it is not overwritten: the GitHub client is not
  -- called, so any other client gives the same result.
  pub compare_pair_spares_github :
      issue_hash digest g ≢ m.last_state_hash
      → (other : IssueForge W)
      → compare_pair env digest shuffle github forgejo repository owner name dry_run m g f
        ≡ compare_pair env digest shuffle other forgejo repository owner name dry_run m g f
  compare_pair_spares_github = compare_pair_spares.1
