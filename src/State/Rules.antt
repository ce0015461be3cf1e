-- ===== src/State/Rules.antt =====
-- Relations between the database before and after, and how the methods of the store keep them.
use forge_sync.Base.{
  Bool, true, false, ◌≡◌, refl, Option, none, some, List, if◌then◌else◌, ◌==◌, nat_eq, String,
}
use mathlib.Core.Path.{subst}
use forge_sync.Base.Int.{ℤ}
use forge_sync.Model.{
  Time, RepositoryMapping, IssueMapping, PullRequestMapping, CommentMapping, ReleaseMapping,
  Conflict,
}
use forge_sync.Result.{Error, Result, ok, err}
use forge_sync.Effect.{Exec}
use forge_sync.Effect.Within.{IsPreorder, Within, within_rules}
use forge_sync.Matching.{external, Identified, Consumed, by_id, record_found, record_pair}
use forge_sync.State.Db.{Db, Env, Sys, time_now, stamp, statement}
use forge_sync.State.Mappings.{
  write_repository, write_issue, write_pull_request, write_comment, write_release,
  upsert_repository, upsert_issue_mapping, upsert_pull_request_mapping, upsert_comment_mapping,
  upsert_release_mapping, list_issue_mappings, list_pull_request_mappings, list_repositories,
  repositories_by_forgejo_path, repository_by_github_id, list_comment_mappings,
  list_release_mappings,
}
use forge_sync.State.Webhooks.{
  insert_delivery, update_delivery, claim_webhook_delivery, mark_webhook_processed,
}
use forge_sync.State.Conflicts.{
  insert_conflict, update_resolved, add_conflict, list_conflicts, conflict_by_id, resolve_conflict,
  scan_resolved,
}
use forge_sync.State.Runs.{insert_run, update_run, begin_run, complete_run}

abbrev pub OnDb : {W : Type 0} → (Db → Db → Type 0) → Sys W → Sys W → Type 0
OnDb R s t = R s.db t.db

-- Each successful run of a statement keeps `R`.
abbrev pub Writes : {A : Type 0} → (Db → Db → Type 0) → (Db → Result (A × Db)) → Type 0
Writes {A} R f = (db : Db) (a : A) (db' : Db) → f db ≡ ok (a, db') → R db db'

-- `R` is a preorder that every statement of a reconciliation keeps. The statements about deliveries and the
-- resolution of a conflict are not among them: the webhook server and the API have those.
pub record StoreRules (R : Db → Db → Type 0) : Type 0 where
  pub stays : (s : Db) → R s s
  pub chain : (s t u : Db) → R s t → R t u → R s u
  pub repository : (m : RepositoryMapping) → Writes R (write_repository m)
  pub issue : (m : IssueMapping) → Writes R (write_issue m)
  pub pull_request : (m : PullRequestMapping) → Writes R (write_pull_request m)
  pub comment : (m : CommentMapping) → Writes R (write_comment m)
  pub release : (m : ReleaseMapping) → Writes R (write_release m)
  pub conflict : (c : Conflict) → Writes R (insert_conflict c)
  pub run : (scope : String) (dry_run : Bool) (t : Time) → Writes R (insert_run scope dry_run t)
  pub completed :
      (id : ℤ) (t : Time) (summary : String) (e : Option Error)
      → Writes R (update_run id t summary e)

module _ {W : Type 0} {R : Db → Db → Type 0} (rules : StoreRules R) (env : Env W) where
  pub on_db : IsPreorder (OnDb {W = W} R)
  on_db = record { stays = λ s. rules.stays s.db; then_ = λ s t u. rules.chain s.db t.db u.db }

  pub Within-time_now : Within (OnDb R) (time_now env)
  unfolding time_now
  Within-time_now = record { at = λ s. rules.stays s.db }

  pub Within-stamp : (t : Time) → Within (OnDb R) (stamp env t)
  unfolding stamp
  Within-stamp t = record { at = λ s. go s (t == 0) }
    where
      go : (s : Sys W) (b : Bool) → R s.db (if b then time_now env s else (ok t, s)).1.db
      go s true = rules.stays s.db
      go s false = rules.stays s.db

  statement_at :
      {A : Type 0} (s : Sys W) (f : Db → Result (A × Db)) (o : Option Error) (w : W)
      (r : Result (A × Db))
      → ((a : A) (db' : Db) → r ≡ ok (a, db') → R s.db db')
      → R s.db (
          let p : Result A × Sys W = elim o [
            | some e ↦ (err e, record s { world = w })
            | none ↦ elim r [
              | err e ↦ (err e, record s { world = w })
              | ok (a, db) ↦ (ok a, record { db = db; world = w })
            ]
          ] in
          p.1.db)
  statement_at s f (some e) w r h = rules.stays s.db
  statement_at s f none w (ok (a, db)) h = h a db refl
  statement_at s f none w (err e) h = rules.stays s.db

  pub Within-statement :
      {A : Type 0} (f : Db → Result (A × Db)) → Writes R f → Within (OnDb R) (statement env f)
  unfolding statement
  Within-statement f h = record {
    at = λ s. statement_at s f (env.sqlite s.world).0 (env.sqlite s.world).1 (f s.db) (h s.db);
  }

  pub Within-query :
      {A : Type 0} (f : Db → A) → Within (OnDb R) (statement env (λ db. ok (f db, db)))
  Within-query f =
      Within-statement _ (λ db a db' h. let e : db ≡ db' = cc h in subst (R db) e (rules.stays db))

  pub Within-external : {A : Type 0} (m : Exec W A) → Within (OnDb R) (external m)
  unfolding external
  Within-external m = record { at = λ s. rules.stays s.db }

  pub Within-upsert_repository : (m : RepositoryMapping) → Within (OnDb R) (upsert_repository env m)
  unfolding upsert_repository
  Within-upsert_repository m =
      search (within_rules, on_db, Within-stamp, Within-statement, rules.repository)

  pub Within-upsert_issue_mapping :
      (m : IssueMapping) → Within (OnDb R) (upsert_issue_mapping env m)
  unfolding upsert_issue_mapping
  Within-upsert_issue_mapping m =
      search (within_rules, on_db, Within-stamp, Within-statement, rules.issue) depth 7

  pub Within-upsert_pull_request_mapping :
      (m : PullRequestMapping) → Within (OnDb R) (upsert_pull_request_mapping env m)
  unfolding upsert_pull_request_mapping
  Within-upsert_pull_request_mapping m =
      search (within_rules, on_db, Within-stamp, Within-statement, rules.pull_request) depth 7

  pub Within-upsert_comment_mapping :
      (m : CommentMapping) → Within (OnDb R) (upsert_comment_mapping env m)
  unfolding upsert_comment_mapping
  Within-upsert_comment_mapping m =
      search (within_rules, on_db, Within-stamp, Within-statement, rules.comment) depth 7

  pub Within-upsert_release_mapping :
      (m : ReleaseMapping) → Within (OnDb R) (upsert_release_mapping env m)
  unfolding upsert_release_mapping
  Within-upsert_release_mapping m =
      search (within_rules, on_db, Within-stamp, Within-statement, rules.release) depth 7

  pub Within-add_conflict : (c : Conflict) → Within (OnDb R) (add_conflict env c)
  unfolding add_conflict
  Within-add_conflict c =
      search (within_rules, on_db, Within-stamp, Within-statement, rules.conflict) depth 7

  pub Within-list_issue_mappings : (id : ℤ) → Within (OnDb R) (list_issue_mappings env id)
  unfolding list_issue_mappings
  Within-list_issue_mappings id = search (within_rules, Within-query)

  pub Within-list_comment_mappings :
      (id issue : ℤ) → Within (OnDb R) (list_comment_mappings env id issue)
  unfolding list_comment_mappings
  Within-list_comment_mappings id issue = search (within_rules, Within-query)

  pub Within-list_release_mappings : (id : ℤ) → Within (OnDb R) (list_release_mappings env id)
  unfolding list_release_mappings
  Within-list_release_mappings id = search (within_rules, Within-query)

  pub Within-list_pull_request_mappings :
      (id : ℤ) → Within (OnDb R) (list_pull_request_mappings env id)
  unfolding list_pull_request_mappings
  Within-list_pull_request_mappings id = search (within_rules, Within-query)

  pub Within-list_repositories : Within (OnDb R) (list_repositories env)
  unfolding list_repositories
  Within-list_repositories = search (within_rules, Within-query)

  pub Within-repositories_by_forgejo_path :
      (owner name : String) → Within (OnDb R) (repositories_by_forgejo_path env owner name)
  unfolding repositories_by_forgejo_path
  Within-repositories_by_forgejo_path owner name = search (within_rules, Within-query)

  pub Within-repository_by_github_id : (id : ℤ) → Within (OnDb R) (repository_by_github_id env id)
  unfolding repository_by_github_id
  Within-repository_by_github_id id = search (within_rules, Within-query)

  pub Within-list_conflicts : Within (OnDb R) (list_conflicts env)
  unfolding list_conflicts
  Within-list_conflicts = search (within_rules, Within-query)

  pub Within-claim_webhook_delivery :
      (forge id event hash : String)
      → ((t : Time) → Writes R (insert_delivery forge id event hash t))
      → Within (OnDb R) (claim_webhook_delivery env forge id event hash)
  unfolding claim_webhook_delivery
  Within-claim_webhook_delivery forge id event hash delivery =
      search (within_rules, on_db, Within-time_now, Within-statement, delivery) depth 7

  pub Within-mark_webhook_processed :
      (forge id : String) (e : Option Error)
      → ((t : Time) (x : Option Error) → Writes R (update_delivery forge id t x))
      → Within (OnDb R) (mark_webhook_processed env forge id e)
  unfolding mark_webhook_processed
  Within-mark_webhook_processed forge id e processed =
      search (within_rules, on_db, Within-time_now, Within-statement, processed) depth 8

  Within-scan_resolved : (o : Option Conflict) → Within (OnDb R) (scan_resolved env o)
  unfolding scan_resolved
  Within-scan_resolved none = search (within_rules, on_db)
  Within-scan_resolved (some c) = search (within_rules, on_db)

  pub Within-resolve_conflict :
      (id : ℤ)
      → ((t : Time) → Writes R (update_resolved id t))
      → Within (OnDb R) (resolve_conflict env id)
  unfolding resolve_conflict conflict_by_id
  Within-resolve_conflict id resolved =
      search
        (
          within_rules, on_db, Within-time_now, Within-statement, Within-query,
          Within-scan_resolved, resolved,
        )
        depth 9

  pub Within-begin_run :
      (scope : String) (dry_run : Bool) → Within (OnDb R) (begin_run env scope dry_run)
  unfolding begin_run
  Within-begin_run scope dry_run =
      search (within_rules, on_db, Within-time_now, Within-statement, rules.run) depth 7

  pub Within-complete_run :
      (id : ℤ) (summary : String) (e : Option Error)
      → Within (OnDb R) (complete_run env id summary e)
  unfolding complete_run
  Within-complete_run id summary e =
      search (within_rules, on_db, Within-time_now, Within-statement, rules.completed) depth 8

  Within-record_found :
      {A : Type 0} (dry_run : Bool) (write : A → A → Exec (Sys W) (Unit {0})) (g f : ℤ)
      (a b : Option A) (c : Consumed)
      → ((x y : A) → Within (OnDb R) (write x y))
      → Within (OnDb R) (record_found dry_run write g f a b c)
  unfolding record_found
  Within-record_found dry_run write g f none b c w = search (within_rules, on_db)
  Within-record_found dry_run write g f (some a) none c w = search (within_rules, on_db)
  Within-record_found dry_run write g f (some a) (some b) c w = search (within_rules, on_db, w)

  pub Within-record_pair :
      {A : Type 0} ⦃i : Identified A⦄ (dry_run : Bool) (write : A → A → Exec (Sys W) (Unit {0}))
      (gs fs : List A) (pair : ℤ × ℤ) (c : Consumed)
      → ((x y : A) → Within (OnDb R) (write x y))
      → Within (OnDb R) (record_pair dry_run write gs fs pair c)
  unfolding record_pair
  Within-record_pair dry_run write gs fs (g, f) c w =
      Within-record_found dry_run write g f (by_id gs g) (by_id fs f) c w
