-- ===== src/Engine/Cycle.antt =====
-- internal/reconcile/engine.go: Reconcile and ProcessWebhook. The repositories of a run are reconciled
-- one after another, as one worker does it; Engine/Pool is about several workers.
use forge_sync.Base.{
  ℕ, String, ◌<>◌, Bool, true, false, Option, none, some, List, [], ◌∷◌, ◌==◌, string_eq,
  if◌then◌else◌, contains, filter, length, sort_by,
}
use forge_sync.Base.Int.{ℤ}
use forge_sync.Base.Text.{cut_at}
use forge_sync.Model.{RepositoryMapping, Inventory}
use forge_sync.Result.{Error, Result, ok, err}
use forge_sync.Effect.{Exec, pure, raise, lift, wrapped, ◌>>=◌, ◌>>◌, for_each}
use forge_sync.State.Db.{Sys}
use forge_sync.State.Mappings.{list_repositories, repositories_by_forgejo_path}
use forge_sync.State.Conflicts.{list_conflicts}
use forge_sync.State.Runs.{begin_run, complete_run}
use forge_sync.Gitrefs.Policy.{string_le}
use forge_sync.Engine.{RepositoryResult, Report, Engine}
use forge_sync.Engine.Repository.{reconcile_one}

-- The state of Reconcile: `report` is its named result, which an error returns as it stands.
pub record Progress (W : Type 0) : Type 0 where
  pub sys : Sys W
  pub report : Report

abbrev pub no_inventory : Inventory
no_inventory = record {
  github_repositories = 0;
  forgejo_repositories = 0;
  missing = 0;
  in_sync = 0;
  conflicted = 0;
}

abbrev no_report : Report
no_report = record { inventory = no_inventory; repositories = [] }

abbrev pub error_of : Result (Unit {0}) → Option Error
error_of (ok _) = none
error_of (err e) = some e

abbrev pub or_all : String → String
or_all scope = if scope == "" then "all" else scope

-- `if completed != nil && finalErr == nil { finalErr = completed }`
abbrev pub first_error : Result (Unit {0}) → Result (Unit {0}) → Result (Unit {0})
first_error (ok _) completed = completed
first_error (err e) completed = err e

module _ {W : Type 0} where
  unfoldable pub on_sys : {A : Type 0} → Exec (Sys W) A → Exec (Progress W) A
  on_sys m p = let (r, s) = m p.sys in (r, record p { sys = s })

  unfoldable pub set_report : (Report → Report) → Exec (Progress W) (Unit {0})
  set_report f p = (ok tt, record p { report = f p.report })

module _ {W : Type 0} (engine : Engine W) where
  open engine use {env, parts, equal_fold, marshal_report, decode, namespaces}

  unfoldable pub reconcile_mappings :
      List RepositoryMapping → Bool → Exec (Sys W) (List RepositoryResult)
  reconcile_mappings [] dry_run = pure []
  reconcile_mappings (m ∷ rest) dry_run = do
    result ← reconcile_one engine m dry_run
    results ← reconcile_mappings rest dry_run
    pure (result ∷ results)

  -- `report.Inventory, err = e.repositories.Discover(...)`
  unfoldable pub take_inventory : Bool → Exec (Progress W) (Unit {0})
  take_inventory dry_run p =
      let ((inventory, outcome), s) = parts.discover namespaces dry_run p.sys in
      (outcome, record { sys = s; report = record p.report { inventory = inventory } })

  unfoldable pub select_scope : String → List RepositoryMapping → Result (List RepositoryMapping)
  select_scope scope mappings =
      if scope == "all"
      then ok mappings
      else selected (filter (λ m. equal_fold m.github_full_name scope) mappings)
    where
      selected : List RepositoryMapping → Result (List RepositoryMapping)
      selected [] = err ("repository " <> scope <> " is not mapped")
      selected (m ∷ rest) = ok (m ∷ rest)

  unfoldable pub cycle : String → Bool → Exec (Progress W) (Unit {0})
  cycle scope dry_run = do
    take_inventory dry_run
    all ← on_sys (list_repositories env)
    mappings ← lift (select_scope scope all)
    results ← on_sys (reconcile_mappings mappings dry_run)
    set_report (λ r. record r {
      repositories = sort_by (λ a b. string_le a.repository b.repository) results;
    })
    conflicts ← on_sys (list_conflicts env)
    set_report (λ r. record r { inventory = record r.inventory { conflicted = length conflicts } })

  -- The deferred CompleteRun.
  unfoldable pub complete :
      ℤ → Result (Unit {0}) → Progress W → (Report × Result (Unit {0})) × Sys W
  complete run outcome p =
      let (completed, s) =
        complete_run env run (marshal_report p.report) (error_of outcome) p.sys in
      ((p.report, first_error outcome completed), s)

  unfoldable pub run_cycle : String → Bool → Result ℤ → Sys W → (Report × Result (Unit {0})) × Sys W
  run_cycle scope dry_run (err e) s = ((no_report, err e), s)
  run_cycle scope dry_run (ok run) s =
      let (outcome, p) = cycle scope dry_run (record { sys = s; report = no_report }) in
      complete run outcome p

  unfoldable pub reconcile : String → Bool → Sys W → (Report × Result (Unit {0})) × Sys W
  reconcile scope dry_run s =
      let (run, s') = begin_run env (or_all scope) dry_run s in
      run_cycle (or_all scope) dry_run run s'

  -- `_, err := e.Reconcile(ctx, scope, false)`
  unfoldable pub reconcile_scope : String → Exec (Sys W) (Unit {0})
  reconcile_scope scope s = let ((_, outcome), s') = reconcile scope false s in (outcome, s')

  abbrev pub is_empty : List RepositoryMapping → Bool
  is_empty [] = true
  is_empty (m ∷ rest) = false

  unfoldable pub process_named : String → String → String → Exec (Sys W) (Unit {0})
  process_named full_name owner name =
      if name == ""
      then raise "webhook repository full name is malformed"
      else if contains namespaces owner
      then reconcile_scope full_name
      else do
        matches ← repositories_by_forgejo_path env owner name
        if is_empty matches
            then raise ("webhook repository " <> full_name <> " is outside configured namespaces")
            else for_each (λ m. reconcile_scope m.github_full_name) matches

  unfoldable pub process_cut : String → Option (String × String) → Exec (Sys W) (Unit {0})
  process_cut full_name none = raise "webhook repository full name is malformed"
  process_cut full_name (some (owner, name)) = process_named full_name owner name

  unfoldable pub process_repository : String → Exec (Sys W) (Unit {0})
  process_repository full_name =
      if full_name == ""
      then reconcile_scope "all"
      else process_cut full_name (cut_at b'/' full_name)

  unfoldable pub process_webhook : String → String → List ℕ → Exec (Sys W) (Unit {0})
  process_webhook forge event payload = do
    full_name ← wrapped "decode webhook payload" (lift (decode payload))
    process_repository full_name
