-- ===== src/Issues/Keeps.antt =====
-- The issue reconciler changes the database only through the store, on every path and error.
use forge_sync.Base.{String, Bool, Option, none, some, List}
use forge_sync.Base.Dict.{Dict}
use forge_sync.Base.Int.{ℤ}
use forge_sync.Model.{Issue, IssueMapping, RepositoryMapping}
use forge_sync.Effect.Within.{Within, within_rules}
use forge_sync.Digest.{Digest}
use forge_sync.Matching.{Consumed}
use forge_sync.State.Db.{Db, Env, Sys}
use forge_sync.State.Rules.{
  OnDb, StoreRules, on_db, Within-time_now, Within-external, Within-upsert_issue_mapping,
  Within-add_conflict, Within-list_issue_mappings, Within-record_pair,
}
use forge_sync.State.Extends.{Extends, Extends-rules}
use forge_sync.Issues.{
  IssueForge, issue_identified, issue_mapping, advance, conflict, copy_to_forgejo, copy_to_github,
  compare_pair, reconcile_mapping, write_hash_pair, write_index_pair, create_on_forgejo,
  create_on_github, reconcile_lists, reconcile,
}

module _ {W : Type 0} {R : Db → Db → Type 0} (rules : StoreRules R) (env : Env W) (digest : Digest)
    (shuffle : Dict ℤ ℤ → Dict ℤ ℤ) (github forgejo : IssueForge W) where
  ruleset store = (
    within_rules, on_db, Within-time_now, Within-external, Within-upsert_issue_mapping,
    Within-add_conflict, Within-list_issue_mappings,
  )

  module _ (repository : RepositoryMapping) (owner name : String) (dry_run : Bool) where
    Within-advance :
        (m : IssueMapping) (hash : String)
        → Within
            (OnDb R)
            (advance env digest shuffle github forgejo repository owner name dry_run m hash)
    unfolding advance
    Within-advance m hash = search (store, rules)

    Within-compare_pair :
        (m : IssueMapping) (g f : Issue)
        → Within
            (OnDb R)
            (compare_pair env digest shuffle github forgejo repository owner name dry_run m g f)
    unfolding compare_pair copy_to_forgejo copy_to_github conflict
    Within-compare_pair m g f = search (store, rules, Within-advance) depth 9

    Within-reconcile_mapping :
        (m : IssueMapping) (g f : Option Issue) (c : Consumed)
        → Within (OnDb R) (
            reconcile_mapping env digest shuffle github forgejo repository owner name dry_run m g f
              c)
    unfolding reconcile_mapping conflict
    Within-reconcile_mapping m (some g) (some f) c = search (store, rules, Within-compare_pair)
    Within-reconcile_mapping m (some g) none c = search (store, rules) depth 9
    Within-reconcile_mapping m none (some f) c = search (store, rules) depth 9
    Within-reconcile_mapping m none none c = search (store, rules) depth 9

    Within-write_hash_pair :
        (g f : Issue)
        → Within
            (OnDb R)
            (write_hash_pair env digest shuffle github forgejo repository owner name dry_run g f)
    unfolding write_hash_pair issue_mapping
    Within-write_hash_pair g f = search (store, rules) depth 7

    Within-write_index_pair :
        (g f : Issue)
        → Within
            (OnDb R)
            (write_index_pair env digest shuffle github forgejo repository owner name dry_run g f)
    unfolding write_index_pair issue_mapping
    Within-write_index_pair g f = search (store, rules) depth 7

    Within-create_on_forgejo :
        (g : Issue)
        → Within
            (OnDb R)
            (create_on_forgejo env digest shuffle github forgejo repository owner name dry_run g)
    unfolding create_on_forgejo
    Within-create_on_forgejo g = search (store, rules, Within-write_hash_pair) depth 9

    Within-create_on_github :
        (f : Issue)
        → Within
            (OnDb R)
            (create_on_github env digest shuffle github forgejo repository owner name dry_run f)
    unfolding create_on_github
    Within-create_on_github f = search (store, rules, Within-write_hash_pair) depth 9

    Within-reconcile_lists :
        (gs fs : List Issue)
        → Within
            (OnDb R)
            (reconcile_lists env digest shuffle github forgejo repository owner name dry_run gs fs)
    unfolding reconcile_lists
    Within-reconcile_lists gs fs =
        search
          (
            store, rules, Within-record_pair, Within-reconcile_mapping, Within-write_hash_pair,
            Within-write_index_pair, Within-create_on_forgejo, Within-create_on_github,
          )
          depth 12

  pub Within-reconcile :
      (repository : RepositoryMapping) (dry_run : Bool)
      → Within (OnDb R) (reconcile env digest shuffle github forgejo repository dry_run)
  unfolding reconcile
  Within-reconcile repository dry_run = search (store, rules, Within-reconcile_lists) depth 12

module _ {W : Type 0} (env : Env W) (digest : Digest) (shuffle : Dict ℤ ℤ → Dict ℤ ℤ)
    (github forgejo : IssueForge W) (repository : RepositoryMapping) (dry_run : Bool) where
  -- Whatever the forges answer and whether it fails or not, reconciling issues leaves a mapping for
  -- every GitHub id that had one, and drops no conflict, delivery or mapped repository.
  pub issues-Extends :
      (s : Sys W)
      → Extends s.db (reconcile env digest shuffle github forgejo repository dry_run s).1.db
  issues-Extends s =
      (Within-reconcile Extends-rules env digest shuffle github forgejo repository dry_run).at s
