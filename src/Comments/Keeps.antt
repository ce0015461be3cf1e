-- ===== src/Comments/Keeps.antt =====
-- The comment reconciler changes the database only through the store, on every path and error.
use forge_sync.Base.{String, Bool, Option, none, some, List}
use forge_sync.Base.Dict.{Dict}
use forge_sync.Base.Int.{ℤ}
use forge_sync.Model.{Comment, CommentMapping, IssueMapping, PullRequestMapping, RepositoryMapping}
use forge_sync.Effect.Within.{Within, within_rules}
use forge_sync.Digest.{Digest}
use forge_sync.Matching.{Consumed}
use forge_sync.State.Db.{Db, Env, Sys}
use forge_sync.State.Rules.{
  OnDb, StoreRules, on_db, Within-time_now, Within-external, Within-record_pair,
  Within-upsert_comment_mapping, Within-add_conflict, Within-list_comment_mappings,
}
use forge_sync.State.Extends.{Extends, Extends-rules}
use forge_sync.Comments.{
  CommentForge, Thread, comment_identified, mapping_for, advance, conflict, copy_to_forgejo,
  copy_to_github, compare_pair, reconcile_mapping, write_pair, create_on_forgejo, create_on_github,
  reconcile_thread, sync_thread, reconcile, reconcile_pull_requests,
}

module _ {W : Type 0} {R : Db → Db → Type 0} (rules : StoreRules R) (env : Env W) (digest : Digest)
    (shuffle : Dict ℤ ℤ → Dict ℤ ℤ) (github forgejo : CommentForge W) where
  ruleset store = (
    within_rules, on_db, Within-time_now, Within-external, Within-upsert_comment_mapping,
    Within-add_conflict, Within-list_comment_mappings,
  )

  module _ (repository : RepositoryMapping) (owner name : String) (dry_run : Bool) where
    Within-advance :
        (m : CommentMapping) (hash : String)
        → Within
            (OnDb R)
            (advance env digest shuffle github forgejo repository owner name dry_run m hash)
    unfolding advance
    Within-advance m hash = search (store, rules)

    Within-compare_pair :
        (m : CommentMapping) (g f : Comment)
        → Within
            (OnDb R)
            (compare_pair env digest shuffle github forgejo repository owner name dry_run m g f)
    unfolding compare_pair copy_to_forgejo copy_to_github conflict
    Within-compare_pair m g f = search (store, rules, Within-advance) depth 9

    Within-reconcile_mapping :
        (m : CommentMapping) (g f : Option Comment) (c : Consumed)
        → Within (OnDb R) (
            reconcile_mapping env digest shuffle github forgejo repository owner name dry_run m g f
              c)
    unfolding reconcile_mapping conflict
    Within-reconcile_mapping m (some g) (some f) c = search (store, rules, Within-compare_pair)
    Within-reconcile_mapping m (some g) none c = search (store, rules) depth 9
    Within-reconcile_mapping m none (some f) c = search (store, rules) depth 9
    Within-reconcile_mapping m none none c = search (store, rules) depth 9

    module _ (target : Thread) where
      Within-write_pair :
          (g f : Comment)
          → Within (OnDb R) (
              write_pair env digest shuffle github forgejo repository owner name dry_run target g f)
      unfolding write_pair mapping_for
      Within-write_pair g f = search (store, rules) depth 7

      Within-create_on_forgejo :
          (g : Comment)
          → Within (OnDb R) (
              create_on_forgejo env digest shuffle github forgejo repository owner name dry_run
                target g)
      unfolding create_on_forgejo
      Within-create_on_forgejo g = search (store, rules, Within-write_pair) depth 9

      Within-create_on_github :
          (f : Comment)
          → Within (OnDb R) (
              create_on_github env digest shuffle github forgejo repository owner name dry_run
                target f)
      unfolding create_on_github
      Within-create_on_github f = search (store, rules, Within-write_pair) depth 9

      Within-reconcile_thread :
          (gs fs : List Comment)
          → Within (OnDb R) (
              reconcile_thread env digest shuffle github forgejo repository owner name dry_run
                target gs fs)
      unfolding reconcile_thread
      Within-reconcile_thread gs fs =
          search
            (
              store, rules, Within-record_pair, Within-reconcile_mapping, Within-write_pair,
              Within-create_on_forgejo, Within-create_on_github,
            )
            depth 12

    Within-sync_thread :
        (label : String) (id : ℤ) (target : Thread)
        → Within (OnDb R) (
            sync_thread env digest shuffle github forgejo repository owner name dry_run label id
              target)
    unfolding sync_thread
    Within-sync_thread label id target = search (store, rules, Within-reconcile_thread) depth 9

  pub Within-reconcile :
      (repository : RepositoryMapping) (mappings : List IssueMapping) (dry_run : Bool)
      → Within (OnDb R) (reconcile env digest shuffle github forgejo repository mappings dry_run)
  unfolding reconcile
  Within-reconcile repository mappings dry_run = search (store, rules, Within-sync_thread) depth 9

  pub Within-reconcile_pull_requests :
      (repository : RepositoryMapping) (mappings : List PullRequestMapping) (dry_run : Bool)
      → Within
          (OnDb R)
          (reconcile_pull_requests env digest shuffle github forgejo repository mappings dry_run)
  unfolding reconcile_pull_requests
  Within-reconcile_pull_requests repository mappings dry_run =
      search (store, rules, Within-sync_thread) depth 9

module _ {W : Type 0} (env : Env W) (digest : Digest) (shuffle : Dict ℤ ℤ → Dict ℤ ℤ)
    (github forgejo : CommentForge W) (repository : RepositoryMapping) (dry_run : Bool)
    (s : Sys W) where
  abbrev after_issues : List IssueMapping → Db
  after_issues mappings =
      (reconcile env digest shuffle github forgejo repository mappings dry_run s).1.db

  abbrev after_pulls : List PullRequestMapping → Db
  after_pulls mappings =
      (reconcile_pull_requests env digest shuffle github forgejo repository mappings dry_run s).1.db

  -- Whatever the forges answer and whether it fails or not, reconciling the comments of any issues and
  -- of any pull requests leaves a mapping for every GitHub id that had one, and drops no conflict,
  -- delivery or mapped repository.
  pub comments-Extends :
      (issues : List IssueMapping) (pulls : List PullRequestMapping)
      → Extends s.db (after_issues issues) × Extends s.db (after_pulls pulls)
  comments-Extends issues pulls = (
    (Within-reconcile Extends-rules env digest shuffle github forgejo repository issues dry_run).at
        s,
    (Within-reconcile_pull_requests Extends-rules env digest shuffle github forgejo repository pulls
          dry_run).at
        s,
  )
