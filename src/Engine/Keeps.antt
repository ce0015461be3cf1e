-- ===== src/Engine/Keeps.antt =====
-- The engine changes the database only through the store, if its parts do.
use forge_sync.Base.{ℕ, String, Bool, false, Option, none, some, List, [], ◌∷◌}
use forge_sync.Base.Int.{ℤ}
use forge_sync.Model.{RepositoryMapping, IssueMapping, PullRequestMapping}
use forge_sync.Result.{Error, Result, ok, err}
use forge_sync.Effect.{Exec}
use forge_sync.Effect.Within.{IsPreorder, Within, Within-bind, Within-pure, within_rules}
use forge_sync.State.Db.{Db, Sys}
use forge_sync.State.Rules.{
  OnDb, StoreRules, on_db, Within-time_now, Within-add_conflict, Within-list_issue_mappings,
  Within-list_pull_request_mappings, Within-list_repositories, Within-repositories_by_forgejo_path,
  Within-list_conflicts, Within-begin_run, Within-complete_run,
}
use forge_sync.Gitrefs.Sync.Run.{Remote}
use forge_sync.Gitrefs.Sync.Cycle.{SyncResult}
use forge_sync.Engine.{RepositoryResult, Report, Parts, Engine}
use forge_sync.Engine.Repository.{
  note, record_mapping_collision, unless_collision, after_releases, sync_objects, after_refs,
  skip_refs, reconcile_one,
}
use forge_sync.Engine.Cycle.{
  Progress, on_sys, set_report, reconcile_mappings, take_inventory, cycle, complete, run_cycle,
  reconcile, reconcile_scope, process_named, process_cut, process_repository, process_webhook,
}

-- The laws of the parts: each keeps `R` between the databases before and after.
pub record PartsKeep {W : Type 0} (R : Db → Db → Type 0) (parts : Parts W) : Type 0 where
  pub discover :
      (namespaces : List String) (dry_run : Bool) (s : Sys W)
      → R s.db (parts.discover namespaces dry_run s).1.db
  pub set_secrets :
      (m : RepositoryMapping) (dry_run : Bool) → Within (OnDb R) (parts.set_secrets m dry_run)
  pub sync_refs :
      (name : String) (g f : Remote) (dry_run : Bool)
      → Within (OnDb R) (parts.sync_refs name g f dry_run)
  pub sync_issues :
      (m : RepositoryMapping) (dry_run : Bool) → Within (OnDb R) (parts.sync_issues m dry_run)
  pub sync_comments :
      (m : RepositoryMapping) (issues : List IssueMapping) (dry_run : Bool)
      → Within (OnDb R) (parts.sync_comments m issues dry_run)
  pub sync_pull_requests :
      (m : RepositoryMapping) (dry_run : Bool)
      → Within (OnDb R) (parts.sync_pull_requests m dry_run)
  pub sync_pull_request_comments :
      (m : RepositoryMapping) (pulls : List PullRequestMapping) (dry_run : Bool)
      → Within (OnDb R) (parts.sync_pull_request_comments m pulls dry_run)
  pub sync_releases :
      (m : RepositoryMapping) (dry_run : Bool) → Within (OnDb R) (parts.sync_releases m dry_run)

module _ {W : Type 0} {R : Db → Db → Type 0} (rules : StoreRules R) (engine : Engine W)
    (keep : PartsKeep R engine.parts) where
  open engine use {env}

  ruleset store = (
    within_rules, on_db, Within-time_now, Within-add_conflict, Within-list_issue_mappings,
    Within-list_pull_request_mappings,
  )

  module _ (m : RepositoryMapping) (dry_run : Bool) where
    Within-note :
        (kind key github_state forgejo_state last_known : String)
        → Within (OnDb R) (note engine m dry_run kind key github_state forgejo_state last_known)
    unfolding note
    Within-note kind key github_state forgejo_state last_known = search (store, rules)

    Within-collision :
        (kind : String) (e : Error)
        → Within (OnDb R) (record_mapping_collision engine m dry_run kind e)
    unfolding record_mapping_collision
    Within-collision kind e = search (store, rules, Within-note)

    Within-unless_collision :
        (kind : String) (outcome : Result (Unit {0})) (next : Exec (Sys W) RepositoryResult)
        → Within (OnDb R) next
        → Within (OnDb R) (unless_collision engine m dry_run kind outcome next)
    unfolding unless_collision
    Within-unless_collision kind (ok t) next w = w
    Within-unless_collision kind (err e) next w = search (store, rules, Within-collision) depth 9

    Within-after_releases :
        (synced : SyncResult) (outcome : Result (Unit {0}))
        → Within (OnDb R) (after_releases engine m dry_run synced outcome)
    unfolding after_releases
    Within-after_releases synced (ok t) = search (store, rules)
    Within-after_releases synced (err e) = search (store, rules, Within-note) depth 9

    Within-sync_objects :
        (synced : SyncResult) → Within (OnDb R) (sync_objects engine m dry_run synced)
    unfolding sync_objects
    Within-sync_objects synced =
        search
          (
            store, rules, Within-unless_collision, Within-after_releases, keep.sync_issues,
            keep.sync_comments, keep.sync_pull_requests, keep.sync_pull_request_comments,
            keep.sync_releases,
          )
          depth 24

    Within-after_refs :
        (outcome : Result SyncResult) → Within (OnDb R) (after_refs engine m dry_run outcome)
    unfolding after_refs
    Within-after_refs (ok synced) = Within-sync_objects synced
    Within-after_refs (err e) = search (store, rules, Within-note) depth 9

    pub Within-reconcile_one : Within (OnDb R) (reconcile_one engine m dry_run)
    unfolding reconcile_one skip_refs
    Within-reconcile_one =
        search (store, rules, Within-note, Within-after_refs, keep.set_secrets, keep.sync_refs)
          depth 12

  Within-reconcile_mappings :
      (mappings : List RepositoryMapping) (dry_run : Bool)
      → Within (OnDb R) (reconcile_mappings engine mappings dry_run)
  unfolding reconcile_mappings
  Within-reconcile_mappings [] dry_run = search (store, rules)
  Within-reconcile_mappings (m ∷ rest) dry_run =
      Within-bind p _ _ (Within-reconcile_one m dry_run) (λ result.
        Within-bind p _ _ (Within-reconcile_mappings rest dry_run) (λ results. Within-pure p _))
    where
      p : IsPreorder (OnDb {W = W} R)
      p = on_db rules env

  abbrev OnProgress : Progress W → Progress W → Type 0
  OnProgress p q = R p.sys.db q.sys.db

  on_progress : IsPreorder OnProgress
  on_progress = record {
    stays = λ s. rules.stays s.sys.db;
    then_ = λ s t u. rules.chain s.sys.db t.sys.db u.sys.db;
  }

  Within-on_sys :
      {A : Type 0} (m : Exec (Sys W) A) → Within (OnDb R) m → Within OnProgress (on_sys m)
  unfolding on_sys
  Within-on_sys m w = record { at = λ p. w.at p.sys }

  Within-set_report : (f : Report → Report) → Within OnProgress (set_report f)
  unfolding set_report
  Within-set_report f = record { at = λ p. rules.stays p.sys.db }

  Within-take_inventory : (dry_run : Bool) → Within OnProgress (take_inventory engine dry_run)
  unfolding take_inventory
  Within-take_inventory dry_run = record { at = λ p. keep.discover engine.namespaces dry_run p.sys }

  Within-cycle : (scope : String) (dry_run : Bool) → Within OnProgress (cycle engine scope dry_run)
  unfolding cycle
  Within-cycle scope dry_run =
      search
        (
          within_rules, on_progress, rules, Within-on_sys, Within-set_report, Within-take_inventory,
          Within-list_repositories, Within-list_conflicts, Within-reconcile_mappings,
        )
        depth 16

  run_cycle-keeps :
      (scope : String) (dry_run : Bool) (run : Result ℤ) (s : Sys W)
      → R s.db (run_cycle engine scope dry_run run s).1.db
  unfolding run_cycle complete
  run_cycle-keeps scope dry_run (err e) s = rules.stays s.db
  run_cycle-keeps scope dry_run (ok run) s =
      rules.chain s.db _ _ ((Within-cycle scope dry_run).at _)
        ((Within-complete_run rules env run _ _).at _)

  pub reconcile-keeps :
      (scope : String) (dry_run : Bool) (s : Sys W) → R s.db (reconcile engine scope dry_run s).1.db
  unfolding reconcile
  reconcile-keeps scope dry_run s =
      rules.chain s.db _ _ ((Within-begin_run rules env _ dry_run).at s)
        (run_cycle-keeps _ dry_run _ _)

  Within-reconcile_scope : (scope : String) → Within (OnDb R) (reconcile_scope engine scope)
  unfolding reconcile_scope
  Within-reconcile_scope scope = record { at = λ s. reconcile-keeps scope false s }

  Within-process_named :
      (full_name owner name : String) → Within (OnDb R) (process_named engine full_name owner name)
  unfolding process_named
  Within-process_named full_name owner name =
      search (store, rules, Within-reconcile_scope, Within-repositories_by_forgejo_path) depth 12

  Within-process_cut :
      (full_name : String) (parts : Option (String × String))
      → Within (OnDb R) (process_cut engine full_name parts)
  unfolding process_cut
  Within-process_cut full_name none = search (store, rules)
  Within-process_cut full_name (some (owner, name)) = Within-process_named full_name owner name

  Within-process_repository :
      (full_name : String) → Within (OnDb R) (process_repository engine full_name)
  unfolding process_repository
  Within-process_repository full_name =
      search (store, rules, Within-reconcile_scope, Within-process_cut)

  pub Within-process_webhook :
      (forge event : String) (payload : List ℕ)
      → Within (OnDb R) (process_webhook engine forge event payload)
  unfolding process_webhook
  Within-process_webhook forge event payload =
      search (store, rules, Within-process_repository) depth 9
