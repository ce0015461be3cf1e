-- ===== src/State/Runs.antt =====
-- internal/state/store.go: the log of reconciliation runs, and the counts of all tables.
use forge_sync.Base.{
  ℕ, suc, String, Bool, ◌&&◌, List, [], ◌∷◌, ◌++◌, ◌==◌, if◌then◌else◌, filter, length, string_eq,
  nat_eq, Option, none, some,
}
use forge_sync.Base.Int.{ℤ, pos, int_eq}
use forge_sync.Model.{Time}
use forge_sync.Result.{Error, Result, ok}
use forge_sync.Effect.{Exec, pure, raise, wrapped, ◌>>=◌}
use forge_sync.State.Db.{Db, Env, Sys, Run, time_now, statement, query}
use forge_sync.State.Conflicts.{unresolved}

unfoldable pub insert_run : String → Bool → Time → Db → Result (ℤ × Db)
insert_run scope dry_run now db =
    let id = pos (suc db.run_seq) in
    ok (
      id,
      record db {
        runs =
            db.runs
            ++ (record {
              id = id;
              scope = scope;
              dry_run = dry_run;
              started_at = now;
              completed_at = none;
              status = "running";
              summary_json = none;
              error = none;
            })
              ∷ [];
        run_seq = suc db.run_seq;
      },
    )

-- `WHERE id = ? AND status = 'running'`
abbrev pub is_running : ℤ → Run → Bool
is_running id r = r.id == id && r.status == "running"

abbrev pub final_status : Option Error → String
final_status none = "succeeded"
final_status (some e) = "failed"

unfoldable pub set_completed : ℤ → Time → String → Option Error → List Run → List Run
set_completed id now summary e [] = []
set_completed id now summary e (r ∷ rows) =
    (if is_running id r
      then record r {
        completed_at = some now;
        status = final_status e;
        summary_json = some summary;
        error = e;
      }
      else r)
    ∷ set_completed id now summary e rows

unfoldable pub update_run : ℤ → Time → String → Option Error → Db → Result (ℕ × Db)
unfolding set_completed
update_run id now summary e db = ok (
  length (filter (is_running id) db.runs),
  record db { runs = set_completed id now summary e db.runs },
)

pub record Stats : Type 0 where
  pub repositories : ℕ
  pub issues : ℕ
  pub pull_requests : ℕ
  pub comments : ℕ
  pub releases : ℕ
  pub conflicts : ℕ
  pub deliveries : ℕ
  pub runs : ℕ

module _ {W : Type 0} (env : Env W) where
  unfoldable pub begin_run : String → Bool → Exec (Sys W) ℤ
  begin_run scope dry_run = do
    now ← time_now env
    wrapped "begin reconciliation run" (statement env (insert_run scope dry_run now))

  unfoldable pub complete_run : ℤ → String → Option Error → Exec (Sys W) (Unit {0})
  complete_run id summary run_err = do
    now ← time_now env
    count ←
        wrapped "complete reconciliation run" (statement env (update_run id now summary run_err))
    if count == 1 then pure tt else raise "reconciliation run is absent or already completed"

  -- One SELECT COUNT for each field.
  unfoldable pub stats : Exec (Sys W) Stats
  stats = do
    repositories ← wrapped "count repositories" (query env (λ db. length db.repositories))
    issues ← wrapped "count issues" (query env (λ db. length db.issues))
    pull_requests ← wrapped "count pull_requests" (query env (λ db. length db.pull_requests))
    comments ← wrapped "count comments" (query env (λ db. length db.comments))
    releases ← wrapped "count releases" (query env (λ db. length db.releases))
    conflicts ←
        wrapped "count conflicts" (query env (λ db. length (filter unresolved db.conflicts)))
    deliveries ← wrapped "count deliveries" (query env (λ db. length db.deliveries))
    runs ← wrapped "count runs" (query env (λ db. length db.runs))
    pure (record {
      repositories = repositories;
      issues = issues;
      pull_requests = pull_requests;
      comments = comments;
      releases = releases;
      conflicts = conflicts;
      deliveries = deliveries;
      runs = runs;
    })
