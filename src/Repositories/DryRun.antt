-- ===== src/Repositories/DryRun.antt =====
-- A dry run of Discover lists and counts.
use forge_sync.Base.{String, true, Option, none, some, List, ◌≡◌, refl, ◌∙◌, arith, string_eq}
use forge_sync.Base.Int.{ℤ, int_eq}
use forge_sync.Model.{Repository, RepositoryMapping, Inventory}
use forge_sync.Effect.{Exec, ◌>>=◌}
use forge_sync.Effect.Within.{IsPreorder, Within, within_rules}
use forge_sync.Effect.Same.{same_rules}
use forge_sync.State.Db.{Sys, statement}
use forge_sync.State.Mappings.{repository_by_github_id}
use forge_sync.State.Conflicts.{list_conflicts}
use forge_sync.Matching.{external}
use forge_sync.Repositories.{
  RepositoryForgejo, Reconciler, Tally, ByName, on_sys, count, first_time,
}
use forge_sync.Repositories.Cycle.{
  keep_identity, keep_settings, refresh_mapped, fail_closed, pair_existing, pair_or_migrate,
  reconcile_target, reconcile_source, list_redirected, discover_namespace, discover,
}

module _ {W : Type 0} (r : Reconciler W) where
  open r use {env, forgejo}

  -- The same reconciler, whose Forgejo client lists as before and changes things in another way.
  abbrev pub with_other_writes : RepositoryForgejo W → Reconciler W
  with_other_writes other = record r {
    forgejo = record other { list_repositories = forgejo.list_repositories };
  }

  module _ (other : RepositoryForgejo W) where
    abbrev r' : Reconciler W
    r' = with_other_writes other

    refresh-same : refresh_mapped r true ≡ refresh_mapped r' true
    unfolding refresh_mapped keep_identity keep_settings
    refresh-same = refl

    pair-same : pair_existing r true ≡ pair_existing r' true
    unfolding pair_existing fail_closed
    pair-same = refl

    pair_or_migrate-at :
        (found : Option Repository) (source target : Repository)
        → pair_or_migrate r true found source target ≡ pair_or_migrate r' true found source target
    unfolding pair_or_migrate
    pair_or_migrate-at (some existing) source target = rw pair-same refl
    pair_or_migrate-at none source target = refl

    target-at :
        (by_name : ByName) (mapped : Option RepositoryMapping) (source target : Repository)
        → reconcile_target r true by_name mapped source target
          ≡ reconcile_target r' true by_name mapped source target
    unfolding reconcile_target
    target-at by_name (some m) source target = rw refresh-same refl
    target-at by_name none source target = pair_or_migrate-at _ source target

    target-same : reconcile_target r true ≡ reconcile_target r' true
    target-same = λ i by_name mapped source target. target-at by_name mapped source target i

    source-at :
        (namespace owner : String) (by_name : ByName) (source : Repository)
        → reconcile_source r true namespace owner by_name source
          ≡ reconcile_source r' true namespace owner by_name source
    unfolding reconcile_source
    source-at namespace owner by_name source = search (same_rules, target-at) depth 9

    redirected-at :
        (namespace owner : String) (source : Repository) (by_name : ByName)
        → list_redirected r true namespace owner source by_name
          ≡ list_redirected r' true namespace owner source by_name
    unfolding list_redirected
    redirected-at namespace owner source by_name = refl

    namespace-at :
        (namespace : String)
        → discover_namespace r true namespace ≡ discover_namespace r' true namespace
    unfolding discover_namespace
    namespace-at namespace = search (same_rules, redirected-at, source-at) depth 14

    discover_writes_nothing :
        (namespaces : List String) → discover r true namespaces ≡ discover r' true namespaces
    unfolding discover
    discover_writes_nothing namespaces = search (same_rules, namespace-at) depth 9

  abbrev Reads : Tally W → Tally W → Type 0
  Reads s t = t.sys.db ≡ s.sys.db

  reads : IsPreorder Reads
  reads = record { stays = λ s. refl; then_ = λ s t u p q. q ∙ p }

  Within-read :
      {A : Type 0} (m : Exec (Sys W) A)
      → ((s : Sys W) → (m s).1.db ≡ s.db)
      → Within Reads (on_sys m)
  unfolding on_sys
  Within-read m h = record { at = λ t. h t.sys }

  repository_by_github_id-reads :
      (id : ℤ) (s : Sys W) → (repository_by_github_id env id s).1.db ≡ s.db
  unfolding repository_by_github_id statement ◌>>=◌
  repository_by_github_id-reads id s = ground arith

  list_conflicts-reads : (s : Sys W) → (list_conflicts env s).1.db ≡ s.db
  unfolding list_conflicts statement ◌>>=◌
  list_conflicts-reads s = ground arith

  external-reads : {A : Type 0} (m : Exec W A) (s : Sys W) → (external m s).1.db ≡ s.db
  unfolding external
  external-reads m s = refl

  refresh-reads :
      (m : RepositoryMapping) (source target : Repository) (s : Sys W)
      → (refresh_mapped r true m source target s).1.db ≡ s.db
  unfolding refresh_mapped keep_identity keep_settings ◌>>=◌
  refresh-reads m source target s = ground arith

  pair-reads :
      (existing source target : Repository) (s : Sys W)
      → (pair_existing r true existing source target s).1.db ≡ s.db
  unfolding pair_existing fail_closed ◌>>=◌
  pair-reads existing source target s = ground arith

  Within-count : (f : Inventory → Inventory) → Within Reads (count f)
  unfolding count
  Within-count f = record { at = λ t. refl }

  Within-first_time : (key : String) → Within Reads (first_time key)
  unfolding first_time
  Within-first_time key = record { at = λ t. ground arith }

  ruleset reading = (
    within_rules, reads, Within-read, Within-count, Within-first_time, external-reads,
    repository_by_github_id-reads, list_conflicts-reads,
  )

  Within-pair_or_migrate :
      (found : Option Repository) (source target : Repository)
      → Within Reads (pair_or_migrate r true found source target)
  unfolding pair_or_migrate
  Within-pair_or_migrate (some existing) source target = search (reading, pair-reads) depth 9
  Within-pair_or_migrate none source target = search (reading) depth 9

  Within-reconcile_target :
      (by_name : ByName) (mapped : Option RepositoryMapping) (source target : Repository)
      → Within Reads (reconcile_target r true by_name mapped source target)
  unfolding reconcile_target
  Within-reconcile_target by_name (some m) source target = search (reading, refresh-reads) depth 9
  Within-reconcile_target by_name none source target = search (Within-pair_or_migrate)

  Within-reconcile_source :
      (namespace owner : String) (by_name : ByName) (source : Repository)
      → Within Reads (reconcile_source r true namespace owner by_name source)
  unfolding reconcile_source
  Within-reconcile_source namespace owner by_name source =
      search (reading, Within-reconcile_target) depth 12

  Within-list_redirected :
      (namespace owner : String) (source : Repository) (by_name : ByName)
      → Within Reads (list_redirected r true namespace owner source by_name)
  unfolding list_redirected
  Within-list_redirected namespace owner source by_name = search (reading) depth 12

  Within-discover_namespace :
      (namespace : String) → Within Reads (discover_namespace r true namespace)
  unfolding discover_namespace
  Within-discover_namespace namespace =
      search (reading, Within-list_redirected, Within-reconcile_source) depth 14

  Within-discover : (namespaces : List String) → Within Reads (discover r true namespaces)
  unfolding discover
  Within-discover namespaces = search (reading, Within-discover_namespace) depth 12

  -- A dry run of Discover makes no call of Forgejo but those that list repositories: with any other calls
  -- that migrate or change one, it gives the same result, the same inventory and the same state. And it
  -- leaves the database as it is.
  pub discover_dry_run :
      (other : RepositoryForgejo W) (namespaces : List String) (t : Tally W)
      → (discover r true namespaces t ≡ discover (with_other_writes other) true namespaces t)
        × ((discover r true namespaces t).1.sys.db ≡ t.sys.db)
  discover_dry_run other namespaces t =
      (λ i. discover_writes_nothing other namespaces i t, (Within-discover namespaces).at t)
