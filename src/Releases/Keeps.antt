-- ===== src/Releases/Keeps.antt =====
-- The release reconciler changes the database only through the store, on every path and error.
use forge_sync.Base.{String, Bool, Option, none, some, List}
use forge_sync.Base.Dict.{Dict}
use forge_sync.Base.Int.{ℤ}
use forge_sync.Model.{Release, ReleaseAsset, ReleaseMapping, RepositoryMapping}
use forge_sync.Effect.Within.{Within, within_rules}
use forge_sync.Digest.{Digest}
use forge_sync.Matching.{Consumed}
use forge_sync.State.Db.{Db, Env, Sys}
use forge_sync.State.Rules.{
  OnDb, StoreRules, on_db, Within-time_now, Within-external, Within-record_pair,
  Within-upsert_release_mapping, Within-add_conflict, Within-list_release_mappings,
}
use forge_sync.State.Extends.{Extends, Extends-rules}
use forge_sync.Releases.{
  ReleaseForge, release_identified, release_mapping, record_skipped, exceeds_asset_limit,
  copy_asset_to_forgejo, copy_asset_to_github, reconcile_assets, advance, conflict, copy_to_forgejo,
  copy_to_github, compare_pair, reconcile_mapping, write_hash_pair, write_tag_pair,
  create_on_forgejo, create_on_github, reconcile_lists, reconcile,
}

module _ {W Bytes : Type 0} {R : Db → Db → Type 0} (rules : StoreRules R) (env : Env W)
    (digest : Digest) (shuffle : Dict ℤ ℤ → Dict ℤ ℤ) (github forgejo : ReleaseForge W Bytes)
    (limit : ℤ) where
  ruleset store = (
    within_rules, on_db, Within-time_now, Within-external, Within-upsert_release_mapping,
    Within-add_conflict, Within-list_release_mappings,
  )

  module _ (repository : RepositoryMapping) where
    Within-exceeds_asset_limit :
        (tag : String) (asset : ReleaseAsset) (from to : String)
        → Within (OnDb R) (
            exceeds_asset_limit env digest shuffle github forgejo limit repository tag asset from
              to)
    unfolding exceeds_asset_limit record_skipped
    Within-exceeds_asset_limit tag asset from to = search (store, rules) depth 9

  module _ (repository : RepositoryMapping) (owner name : String) where
    Within-reconcile_assets :
        (g f : Release)
        → Within
            (OnDb R)
            (reconcile_assets env digest shuffle github forgejo limit repository owner name g f)
    unfolding reconcile_assets copy_asset_to_forgejo copy_asset_to_github
    Within-reconcile_assets g f = search (store, rules, Within-exceeds_asset_limit) depth 12

  module _ (repository : RepositoryMapping) (owner name : String) (dry_run : Bool) where
    Within-advance :
        (m : ReleaseMapping) (hash : String)
        → Within
            (OnDb R)
            (advance env digest shuffle github forgejo limit repository owner name dry_run m hash)
    unfolding advance
    Within-advance m hash = search (store, rules)

    Within-compare_pair :
        (m : ReleaseMapping) (g f : Release)
        → Within (OnDb R) (
            compare_pair env digest shuffle github forgejo limit repository owner name dry_run m g
              f)
    unfolding compare_pair copy_to_forgejo copy_to_github conflict
    Within-compare_pair m g f =
        search (store, rules, Within-advance, Within-reconcile_assets) depth 12

    Within-reconcile_mapping :
        (m : ReleaseMapping) (g f : Option Release) (c : Consumed)
        → Within (OnDb R) (
            reconcile_mapping env digest shuffle github forgejo limit repository owner name dry_run
              m g f c)
    unfolding reconcile_mapping conflict
    Within-reconcile_mapping m (some g) (some f) c = search (store, rules, Within-compare_pair)
    Within-reconcile_mapping m (some g) none c = search (store, rules) depth 9
    Within-reconcile_mapping m none (some f) c = search (store, rules) depth 9
    Within-reconcile_mapping m none none c = search (store, rules) depth 9

    Within-write_hash_pair :
        (g f : Release)
        → Within (OnDb R) (
            write_hash_pair env digest shuffle github forgejo limit repository owner name dry_run g
              f)
    unfolding write_hash_pair release_mapping
    Within-write_hash_pair g f = search (store, rules, Within-reconcile_assets) depth 9

    Within-write_tag_pair :
        (g f : Release)
        → Within (OnDb R) (
            write_tag_pair env digest shuffle github forgejo limit repository owner name dry_run g
              f)
    unfolding write_tag_pair release_mapping
    Within-write_tag_pair g f = search (store, rules) depth 7

    Within-create_on_forgejo :
        (g : Release)
        → Within (OnDb R) (
            create_on_forgejo env digest shuffle github forgejo limit repository owner name dry_run
              g)
    unfolding create_on_forgejo
    Within-create_on_forgejo g = search (store, rules, Within-write_hash_pair) depth 9

    Within-create_on_github :
        (f : Release)
        → Within (OnDb R) (
            create_on_github env digest shuffle github forgejo limit repository owner name dry_run
              f)
    unfolding create_on_github
    Within-create_on_github f = search (store, rules, Within-write_hash_pair) depth 9

    Within-reconcile_lists :
        (gs fs : List Release)
        → Within (OnDb R) (
            reconcile_lists env digest shuffle github forgejo limit repository owner name dry_run gs
              fs)
    unfolding reconcile_lists
    Within-reconcile_lists gs fs =
        search
          (
            store, rules, Within-record_pair, Within-reconcile_mapping, Within-write_hash_pair,
            Within-write_tag_pair, Within-create_on_forgejo, Within-create_on_github,
          )
          depth 12

  pub Within-reconcile :
      (repository : RepositoryMapping) (dry_run : Bool)
      → Within (OnDb R) (reconcile env digest shuffle github forgejo limit repository dry_run)
  unfolding reconcile
  Within-reconcile repository dry_run = search (store, rules, Within-reconcile_lists) depth 12

module _ {W Bytes : Type 0} (env : Env W) (digest : Digest) (shuffle : Dict ℤ ℤ → Dict ℤ ℤ)
    (github forgejo : ReleaseForge W Bytes) (limit : ℤ) (repository : RepositoryMapping)
    (dry_run : Bool) (s : Sys W) where
  -- Whatever the forges answer and whether it fails or not, reconciling releases leaves a mapping for
  -- every GitHub id that had one, and drops no conflict, delivery or mapped repository.
  pub releases-Extends :
      Extends s.db (reconcile env digest shuffle github forgejo limit repository dry_run s).1.db
  releases-Extends =
      (Within-reconcile Extends-rules env digest shuffle github forgejo limit repository dry_run).at
        s
