-- ===== src/Comments.antt =====
-- internal/comments/reconcile.go
pub mod Switch
pub mod Keeps
use forge_sync.Base.{
  String, ◌<>◌, Bool, true, false, not, ◌&&◌, Option, none, some, List, [], ◌==◌, string_eq,
  if◌then◌else◌,
}
use forge_sync.Base.Dict.{Dict}
use forge_sync.Base.Int.{ℤ, pos, int_eq, positive, format_int}
use forge_sync.Model.{
  Comment, CommentMapping, IssueMapping, PullRequestMapping, RepositoryMapping, Conflict,
}
use forge_sync.Result.{Result, ok, err}
use forge_sync.Effect.{Exec, pure, raise, lift, wrapped, ◌>>=◌, ◌>>◌, fold, for_each}
use forge_sync.Digest.{Digest, comment_hash}
use forge_sync.State.Db.{Env, Sys, time_now}
use forge_sync.State.Mappings.{upsert_comment_mapping, list_comment_mappings}
use forge_sync.State.Conflicts.{add_conflict}
use forge_sync.Matching.{
  Identified, Consumed, consume, by_id, unconsumed, validate_unique, unique_pairs, object_key,
  external, identity, record_pair,
}

-- The interface `Forge` of the package, over the state `W` of the outside.
pub record CommentForge (W : Type 0) : Type 0 where
  pub list_comments : String → String → ℤ → Exec W (List Comment)
  pub create_comment : String → String → ℤ → Comment → Exec W Comment
  pub update_comment : String → String → ℤ → Comment → Exec W Comment

instance abbrev pub comment_identified : Identified Comment
comment_identified = record { id_of = λ c. c.id }

unfoldable pub validate_comment : Comment → Result (Unit {0})
validate_comment c = if not (positive c.id) then err "comment ID is invalid" else ok tt

unfoldable pub validate : List Comment → Result (Unit {0})
validate all = validate_unique validate_comment "duplicate comment ID " all []

pub record Thread : Type 0 where
  pub github_id : ℤ
  pub github_index : ℤ
  pub forgejo_index : ℤ

module _ (digest : Digest) where
  unfoldable pub hash_or_missing : Option Comment → String
  hash_or_missing none = "missing"
  hash_or_missing (some c) = comment_hash digest c

  unfoldable pub unique_comment_pairs : List Comment → List Comment → Dict ℤ ℤ
  unique_comment_pairs = unique_pairs (comment_hash digest) (λ g f. true)

-- `shuffle` is the order in which Go ranges over a map of pairs.
module _ {W : Type 0} (env : Env W) (digest : Digest) (shuffle : Dict ℤ ℤ → Dict ℤ ℤ)
    (github forgejo : CommentForge W) where
  unfoldable pub mapping_for : ℤ → ℤ → Comment → Comment → Exec (Sys W) CommentMapping
  mapping_for repository_id issue_github_id g f = do
    now ← time_now env
    pure (record {
      repository_github_id = repository_id;
      issue_github_id = issue_github_id;
      github_id = g.id;
      forgejo_id = f.id;
      last_state_hash = comment_hash digest g;
      updated_at = now;
    })

  module _ (repository : RepositoryMapping) (owner name : String) (dry_run : Bool) where
    unfoldable pub advance : CommentMapping → String → Exec (Sys W) (Unit {0})
    advance m hash = do
      now ← time_now env
      upsert_comment_mapping env (record m { last_state_hash = hash; updated_at = now })

    unfoldable pub conflict : String → CommentMapping → String → String → Exec (Sys W) (Unit {0})
    conflict kind m github_state forgejo_state = do
      now ← time_now env
      add_conflict env (record {
        id = pos 0;
        kind = kind;
        repository = repository.github_full_name;
        object_key = object_key m.github_id m.forgejo_id;
        github_state = github_state;
        forgejo_state = forgejo_state;
        last_known_state = m.last_state_hash;
        created_at = now;
        resolved_at = none;
      })

    unfoldable pub copy_to_forgejo : CommentMapping → Comment → Exec (Sys W) (Unit {0})
    copy_to_forgejo m g = do
      _ ←
          external
            (forgejo.update_comment repository.forgejo_owner repository.forgejo_name m.forgejo_id g)
      advance m (comment_hash digest g)

    unfoldable pub copy_to_github : CommentMapping → Comment → Exec (Sys W) (Unit {0})
    copy_to_github m f = do
      _ ← external (github.update_comment owner name m.github_id f)
      advance m (comment_hash digest f)

    -- The `switch` on the two hashes of a mapped pair.
    unfoldable pub compare_pair : CommentMapping → Comment → Comment → Exec (Sys W) (Unit {0})
    compare_pair m g f =
        if comment_hash digest g == comment_hash digest f
        then if not dry_run && not (m.last_state_hash == comment_hash digest g)
          then advance m (comment_hash digest g)
          else pure tt
        else if comment_hash digest f == m.last_state_hash
        then if not dry_run then copy_to_forgejo m g else pure tt
        else if comment_hash digest g == m.last_state_hash
        then if not dry_run then copy_to_github m f else pure tt
        else if not dry_run
        then conflict "comment" m (comment_hash digest g) (comment_hash digest f)
        else pure tt

    -- The body of the loop over the mappings, given what `commentByID` holds for the two ids.
    unfoldable pub reconcile_mapping :
        CommentMapping → Option Comment → Option Comment → Consumed → Exec (Sys W) Consumed
    reconcile_mapping m (some g) (some f) consumed = do
      compare_pair m g f
      pure (consume g.id f.id consumed)
    reconcile_mapping m found_github found_forgejo consumed = if dry_run then pure consumed else do
      conflict "comment-missing" m (hash_or_missing digest found_github)
          (hash_or_missing digest found_forgejo)
      pure consumed

    module _ (target : Thread) where
      unfoldable pub write_pair : Comment → Comment → Exec (Sys W) (Unit {0})
      write_pair g f = do
        m ← mapping_for repository.github_id target.github_id g f
        upsert_comment_mapping env m

      unfoldable pub create_on_forgejo : Comment → Exec (Sys W) (Unit {0})
      create_on_forgejo g = if dry_run then pure tt else do
        created ← external (
            forgejo.create_comment repository.forgejo_owner repository.forgejo_name
              target.forgejo_index g)
        write_pair g created

      unfoldable pub create_on_github : Comment → Exec (Sys W) (Unit {0})
      create_on_github f = if dry_run then pure tt else do
        created ← external (github.create_comment owner name target.github_index f)
        write_pair created f

      unfoldable pub reconcile_thread : List Comment → List Comment → Exec (Sys W) (Unit {0})
      reconcile_thread github_comments forgejo_comments = do
        lift (validate github_comments)
        lift (validate forgejo_comments)
        mappings ← list_comment_mappings env repository.github_id target.github_id
        mapped ←
            fold
              (λ m c.
                reconcile_mapping m (by_id github_comments m.github_id)
                  (by_id forgejo_comments m.forgejo_id) c)
              mappings (record { on_github = []; on_forgejo = [] })
        paired ←
            fold (record_pair dry_run write_pair github_comments forgejo_comments)
              (shuffle (
                unique_comment_pairs digest (unconsumed github_comments mapped.on_github)
                  (unconsumed forgejo_comments mapped.on_forgejo)))
              mapped
        for_each create_on_forgejo (unconsumed github_comments paired.on_github)
        for_each create_on_github (unconsumed forgejo_comments paired.on_forgejo)

    -- The comments of one thread, read from both forges: the body of the loops below. `label` is how
    -- their errors call the thread.
    unfoldable pub sync_thread : String → ℤ → Thread → Exec (Sys W) (Unit {0})
    sync_thread label forgejo_id target = do
      github_comments ←
          wrapped ("list GitHub comments for " <> label <> " " <> format_int target.github_id)
            (external (github.list_comments owner name target.github_index))
      forgejo_comments ←
          wrapped ("list Forgejo comments for " <> label <> " " <> format_int forgejo_id) (
            external (
              forgejo.list_comments repository.forgejo_owner repository.forgejo_name
                target.forgejo_index))
      reconcile_thread target github_comments forgejo_comments

  unfoldable pub reconcile : RepositoryMapping → List IssueMapping → Bool → Exec (Sys W) (Unit {0})
  reconcile repository issue_mappings dry_run = do
    (owner, name) ← lift (identity repository)
    for_each
        (λ m. sync_thread repository owner name dry_run "issue" m.forgejo_id (record {
          github_id = m.github_id;
          github_index = m.github_index;
          forgejo_index = m.forgejo_index;
        }))
        issue_mappings

  unfoldable pub reconcile_pull_requests :
      RepositoryMapping → List PullRequestMapping → Bool → Exec (Sys W) (Unit {0})
  reconcile_pull_requests repository pull_request_mappings dry_run = do
    (owner, name) ← lift (identity repository)
    for_each
        (λ m. sync_thread repository owner name dry_run "pull request" m.forgejo_id (record {
          github_id = m.github_id;
          github_index = m.github_index;
          forgejo_index = m.forgejo_index;
        }))
        pull_request_mappings
