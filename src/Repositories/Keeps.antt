-- ===== src/Repositories/Keeps.antt =====
-- Discover changes the database only through the store, on every path and error.
use forge_sync.Base.{String, Bool, Option, none, some, List, arith}
use forge_sync.Model.{Repository, RepositoryMapping, Inventory}
use forge_sync.Effect.{Exec}
use forge_sync.Effect.Within.{IsPreorder, Within, within_rules}
use forge_sync.State.Db.{Db, Sys}
use forge_sync.State.Rules.{
  OnDb, StoreRules, on_db, Within-time_now, Within-external, Within-upsert_repository,
  Within-repository_by_github_id, Within-list_conflicts,
}
use forge_sync.State.Extends.{Extends, Extends-rules}
use forge_sync.Repositories.{
  Reconciler, Tally, ByName, on_sys, count, first_time, mapping_for_pair, mapping_for,
}
use forge_sync.Repositories.Cycle.{
  write_pair, keep_identity, keep_settings, refresh_mapped, fail_closed, pair_existing, migrate,
  pair_or_migrate, reconcile_target, reconcile_source, list_redirected, discover_namespace,
  discover,
}

module _ {W : Type 0} {R : Db → Db → Type 0} (rules : StoreRules R) (r : Reconciler W) where
  open r use {env}

  ruleset store = (
    within_rules, on_db, Within-time_now, Within-external, Within-upsert_repository,
    Within-repository_by_github_id, Within-list_conflicts,
  )

  abbrev OnTally : Tally W → Tally W → Type 0
  OnTally s t = R s.sys.db t.sys.db

  on_tally : IsPreorder OnTally
  on_tally = record {
    stays = λ s. rules.stays s.sys.db;
    then_ = λ s t u. rules.chain s.sys.db t.sys.db u.sys.db;
  }

  Within-on_sys : {A : Type 0} (m : Exec (Sys W) A) → Within (OnDb R) m → Within OnTally (on_sys m)
  unfolding on_sys
  Within-on_sys m w = record { at = λ t. w.at t.sys }

  Within-count : (f : Inventory → Inventory) → Within OnTally (count f)
  unfolding count
  Within-count f = record { at = λ t. rules.stays t.sys.db }

  Within-first_time : (key : String) → Within OnTally (first_time key)
  unfolding first_time
  Within-first_time key = record { at = λ t. ground (arith, rules.stays t.sys.db) }

  Within-mapping_for_pair :
      (source : Repository) (owner name : String)
      → Within (OnDb R) (mapping_for_pair r source owner name)
  unfolding mapping_for_pair
  Within-mapping_for_pair source owner name = search (store, rules)

  Within-mapping_for : (x : Repository) → Within (OnDb R) (mapping_for r x)
  unfolding mapping_for
  Within-mapping_for x = search (store, rules)

  module _ (dry_run : Bool) where
    Within-write_pair :
        (source : Repository) (owner name : String)
        → Within (OnDb R) (write_pair r dry_run source owner name)
    unfolding write_pair
    Within-write_pair source owner name = search (store, rules, Within-mapping_for_pair)

    Within-refresh_mapped :
        (m : RepositoryMapping) (source target : Repository)
        → Within (OnDb R) (refresh_mapped r dry_run m source target)
    unfolding refresh_mapped keep_identity keep_settings
    Within-refresh_mapped m source target = search (store, rules, Within-write_pair) depth 12

    Within-pair_existing :
        (existing source target : Repository)
        → Within (OnDb R) (pair_existing r dry_run existing source target)
    unfolding pair_existing fail_closed
    Within-pair_existing existing source target = search (store, rules, Within-write_pair) depth 12

    Within-migrate :
        (source target : Repository) → Within (OnDb R) (migrate r dry_run source target)
    unfolding migrate
    Within-migrate source target = search (store, rules, Within-mapping_for) depth 9

    ruleset tally =
        (within_rules, on_tally, Within-on_sys, Within-count, Within-first_time, Within-external)

    Within-pair_or_migrate :
        (found : Option Repository) (source target : Repository)
        → Within OnTally (pair_or_migrate r dry_run found source target)
    unfolding pair_or_migrate
    Within-pair_or_migrate (some existing) source target =
        search (tally, rules, Within-pair_existing) depth 9
    Within-pair_or_migrate none source target = search (tally, rules, Within-migrate) depth 9

    Within-reconcile_target :
        (by_name : ByName) (mapped : Option RepositoryMapping) (source target : Repository)
        → Within OnTally (reconcile_target r dry_run by_name mapped source target)
    unfolding reconcile_target
    Within-reconcile_target by_name (some m) source target =
        search (tally, rules, Within-refresh_mapped) depth 9
    Within-reconcile_target by_name none source target = search (Within-pair_or_migrate)

    Within-reconcile_source :
        (namespace owner : String) (by_name : ByName) (source : Repository)
        → Within OnTally (reconcile_source r dry_run namespace owner by_name source)
    unfolding reconcile_source
    Within-reconcile_source namespace owner by_name source =
        search (tally, rules, Within-repository_by_github_id, Within-reconcile_target) depth 12

    Within-list_redirected :
        (namespace owner : String) (source : Repository) (by_name : ByName)
        → Within OnTally (list_redirected r dry_run namespace owner source by_name)
    unfolding list_redirected
    Within-list_redirected namespace owner source by_name = search (tally, rules) depth 12

    Within-discover_namespace :
        (namespace : String) → Within OnTally (discover_namespace r dry_run namespace)
    unfolding discover_namespace
    Within-discover_namespace namespace =
        search (tally, rules, Within-list_redirected, Within-reconcile_source) depth 14

    pub Within-discover :
        (namespaces : List String) → Within OnTally (discover r dry_run namespaces)
    unfolding discover
    Within-discover namespaces =
        search (tally, rules, Within-list_conflicts, Within-discover_namespace) depth 12

module _ {W : Type 0} (r : Reconciler W) (dry_run : Bool) (namespaces : List String)
    (t : Tally W) where
  -- Whatever the forges list and answer and whether it fails or not, Discover leaves a mapping for
  -- every GitHub id that had one, and drops no conflict, delivery or mapped repository.
  pub discover-Extends : Extends t.sys.db (discover r dry_run namespaces t).1.sys.db
  discover-Extends = (Within-discover Extends-rules r dry_run namespaces).at t
