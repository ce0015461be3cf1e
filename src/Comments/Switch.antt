-- ===== src/Comments/Switch.antt =====
-- What the comment reconciler does to one mapped pair of comments: the two hashes and the last known one.
use forge_sync.Base.{String, Bool, ◌≡◌, ◌≢◌, string_eq, arith}
use forge_sync.Base.Dict.{Dict}
use forge_sync.Base.Int.{ℤ}
use forge_sync.Model.{Comment, CommentMapping, RepositoryMapping}
use forge_sync.Digest.{Digest, comment_hash}
use forge_sync.State.Db.{Env}
use forge_sync.Comments.{
  CommentForge, conflict, copy_to_forgejo, copy_to_github, advance, compare_pair,
}

module _ {W : Type 0} (env : Env W) (digest : Digest) (shuffle : Dict ℤ ℤ → Dict ℤ ℤ)
    (github forgejo : CommentForge W) (repository : RepositoryMapping) (owner name : String)
    (dry_run : Bool) (m : CommentMapping) (g f : Comment) where
  compare_comments_spares :
      (comment_hash digest f ≢ m.last_state_hash
        → (other : CommentForge W)
        → compare_pair env digest shuffle github forgejo repository owner name dry_run m g f
          ≡ compare_pair env digest shuffle github other repository owner name dry_run m g f)
      × (comment_hash digest g ≢ m.last_state_hash
          → (other : CommentForge W)
          → compare_pair env digest shuffle github forgejo repository owner name dry_run m g f
            ≡ compare_pair env digest shuffle other forgejo repository owner name dry_run m g f)
  unfolding compare_pair copy_to_github copy_to_forgejo advance conflict
  compare_comments_spares = (λ h other. ground arith, λ h other. ground arith)

  -- If the Forgejo comment is not in the last known state, it is not overwritten: the Forgejo client is not
  -- called, so any other client gives the same result.
  pub compare_comments_spares_forgejo :
      comment_hash digest f ≢ m.last_state_hash
      → (other : CommentForge W)
      → compare_pair env digest shuffle github forgejo repository owner name dry_run m g f
        ≡ compare_pair env digest shuffle github other repository owner name dry_run m g f
  compare_comments_spares_forgejo = compare_comments_spares.0

  -- If the GitHub comment is not in the last known state, it is not overwritten: the GitHub client is not
  -- called, so any other client gives the same result.
  pub compare_comments_spares_github :
      comment_hash digest g ≢ m.last_state_hash
      → (other : CommentForge W)
      → compare_pair env digest shuffle github forgejo repository owner name dry_run m g f
        ≡ compare_pair env digest shuffle other forgejo repository owner name dry_run m g f
  compare_comments_spares_github = compare_comments_spares.1
