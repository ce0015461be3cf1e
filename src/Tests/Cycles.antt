-- ===== src/Tests/Cycles.antt =====
-- The engine on one mapped repository, on its own parts and on parts that do nothing, and its workers.
use forge_sync.Base.{
  ℕ, ◌+◌, ◌*◌, ◌≤◌, String, true, false, none, some, [], ◌∷◌, ◌≡◌, ◌⊎◌, inl, refl, string_eq,
  nat_eq, sort_by, insert_sorted, length, map, arith,
}
use forge_sync.Base.Int.{ℤ, pos, int_eq}
use forge_sync.Base.Text.{cut_prefix, decode_hex}
use forge_sync.Result.{ok, err}
use forge_sync.Effect.{◌>>=◌, for_each}
use forge_sync.State.Db.{Sys, time_now, statement}
use forge_sync.State.Conflicts.{list_conflicts, open_conflicts}
use forge_sync.State.Mappings.{list_repositories, list_issue_mappings, list_pull_request_mappings}
use forge_sync.State.Runs.{begin_run, insert_run, complete_run, update_run, set_completed}
use forge_sync.State.Webhooks.{
  claim_webhook_delivery, mark_webhook_processed, insert_delivery, update_delivery, set_processed,
}
use forge_sync.State.Extends.{Extends, Extends-refl}
use forge_sync.State.Rows.{KeepsRows}
use forge_sync.Gitrefs.Sync.Run.{Host, ran}
use forge_sync.Repositories.Cycle.{discover}
use forge_sync.Repositories.{on_sys as on_tally, count}
use forge_sync.Webhooks.Server.{
  allowed_event, read_limited, headers, equal_bytes, forge_of_path, valid_hex_signature,
  valid_signature, secret_for, check_body, check_request, process, claim, serve_http,
}
use forge_sync.Webhooks.Server.Laws.{with_processor}
use forge_sync.Engine.{RepositoryResult, Engine}
use forge_sync.Engine.Repository.{
  unless_collision, after_releases, sync_objects, after_refs, reconcile_one,
}
use forge_sync.Engine.Cycle.{
  no_inventory, on_sys, set_report, reconcile_mappings, take_inventory, select_scope, cycle,
  complete, run_cycle, reconcile, reconcile_scope, process_repository, process_webhook,
}
use forge_sync.Engine.Assembly.{Setup, parts, engine}
use forge_sync.Engine.Results.{
  has_status, cycle_keeps_records, wired, engine_once, reconcile_recorded,
}
use forge_sync.Engine.Pool.{
  Pool, IsDone, start as start_pool, collect, Work, feed, close, take, finish, leave, work, Steps,
  stop, step,
}
use forge_sync.Engine.Pool.Schedules.{tally, done, pool_complete}
use forge_sync.Engine.Pool.Ends.{pool_terminates}
use forge_sync.Tests.Repositories.{
  env, digest, in_order, repository, start, db, github_issues, forgejo_issues, github_comments,
  forgejo_comments, github_releases, forgejo_releases,
}
use forge_sync.Tests.Pulls.{unicode, pulls_of}
use forge_sync.Tests.Requests.{crypto, server, request, fail}
use forge_sync.Tests.Requests.{start as no_deliveries}

abbrev host : Host ℕ
host = record {
  parse_url = λ url. some (record { scheme = "https"; host = "h"; has_user = false });
  mkdir_temp = λ pattern w. (ok "/tmp/x", w);
  chmod = λ name mode w. (ok tt, w);
  remove_all = λ name w. w;
  write_file = λ name body mode w. (ok tt, w);
  environ = [];
  execute = λ c w. (record { printed = []; context_error = none; exit = ran }, w);
  sleep = λ n w. (none, w);
  text = λ bytes. "";
}

abbrev setup : Setup ℕ String
setup = record {
  env = env;
  host = host;
  digest = digest;
  unicode = unicode;
  shuffle = in_order;
  github_issues = github_issues;
  forgejo_issues = forgejo_issues;
  github_comments = github_comments;
  forgejo_comments = forgejo_comments;
  github_pulls = pulls_of [];
  forgejo_pulls = pulls_of [];
  github_releases = github_releases;
  forgejo_releases = forgejo_releases;
  github_repositories = record { list_repositories = λ n w. (ok [], w) };
  forgejo_repositories = record {
    list_repositories = λ n w. (ok [], w);
    migrate_repository = λ r token w. (ok r, w);
    update_repository_identity = λ a b c d w. (ok tt, w);
    update_repository_settings = λ r w. (ok tt, w);
  };
  forgejo_secrets = record { set_action_secret = λ o n k v w. (ok tt, w) };
  asset_limit = pos 1000;
  action_secrets = [];
  owner_map = [];
  repo_map = [];
  marshal_report = λ r. "{}";
  decode = λ bytes. ok "";
  namespaces = [];
  github_token = "t";
  forgejo_token = "t";
  forgejo_api = "https://forge/api/v1/";
  max_ref_size_kb = pos 0;
}

cycle_keeps_records_example :
    Extends db (reconcile (engine setup) "all" false start).1.db
    × KeepsRows db (reconcile (engine setup) "all" false start).1.db
cycle_keeps_records_example = cycle_keeps_records setup "all" false start

abbrev after : Sys ℕ
after = (serve_http crypto env (wired setup server) request no_deliveries).1

first_answer : (serve_http crypto env (wired setup server) request no_deliveries).0 ≡ 202
unfolding serve_http check_request check_body string_eq forge_of_path read_limited headers
    allowed_event valid_signature valid_hex_signature cut_prefix nat_eq int_eq decode_hex
    equal_bytes claim claim_webhook_delivery ◌>>=◌ time_now statement insert_delivery process
    mark_webhook_processed set_processed update_delivery secret_for process_webhook
    process_repository reconcile_scope reconcile begin_run insert_run run_cycle cycle take_inventory
    engine parts discover for_each on_tally list_conflicts open_conflicts count sort_by on_sys
    list_repositories select_scope reconcile_mappings set_report complete complete_run update_run
    set_completed
first_answer = refl

engine_once_example :
    serve_http crypto env (wired setup server) request after
    ≡ serve_http crypto env (with_processor fail server) request after
engine_once_example =
    engine_once setup crypto server fail request no_deliveries after first_answer
      (Extends-refl after.db)

-- Parts that find nothing to do.
abbrev quiet : Engine ℕ
quiet = record {
  env = env;
  parts = record {
    discover = λ namespaces dry_run s. ((no_inventory, ok tt), s);
    set_secrets = λ m dry_run s. (ok tt, s);
    sync_refs = λ name g f dry_run s. (ok (record { actions = []; conflicts = [] }), s);
    sync_issues = λ m dry_run s. (ok tt, s);
    sync_comments = λ m issues dry_run s. (ok tt, s);
    sync_pull_requests = λ m dry_run s. (ok tt, s);
    sync_pull_request_comments = λ m pulls dry_run s. (ok tt, s);
    sync_releases = λ m dry_run s. (ok tt, s);
  };
  equal_fold = λ a b. false;
  marshal_report = λ r. "{}";
  decode = λ bytes. ok "";
  namespaces = [];
  github_token = "t";
  forgejo_token = "t";
  forgejo_clone_base = "https://forge";
  max_ref_size_kb = pos 100;
}

abbrev result : RepositoryResult
result = record { repository = "o/r"; actions = []; conflicts = 0 }

repository_done : (reconcile_one quiet repository false start).0 ≡ ok result
unfolding reconcile_one ◌>>=◌ after_refs sync_objects unless_collision list_issue_mappings statement
    list_pull_request_mappings after_releases
repository_done = refl

run_succeeded : (reconcile quiet "" false start).0.1 ≡ ok tt
unfolding reconcile string_eq begin_run ◌>>=◌ time_now statement insert_run run_cycle cycle
    take_inventory on_sys list_repositories sort_by insert_sorted select_scope reconcile_mappings
    reconcile_one after_refs sync_objects unless_collision list_issue_mappings
    list_pull_request_mappings after_releases set_report list_conflicts open_conflicts complete
    complete_run update_run set_completed nat_eq int_eq
run_succeeded = refl

reconcile_recorded_example :
    (run : ℤ) × ((begin_run env "all" false start).0 ≡ ok run)
    × (has_status run "succeeded" (reconcile quiet "" false start).1.db.runs ≡ true)
unfolding string_eq
reconcile_recorded_example = reconcile_recorded quiet "" false start run_succeeded

-- Nothing but the secrets succeeds: git is broken, and the mappings of the issues collide.
abbrev collision : String
collision =
    "upsert issue mapping: UNIQUE constraint failed: issue_mappings.repository_github_id, issue_mappings.forgejo_id"

abbrev colliding : Engine ℕ
colliding = record quiet {
  parts = record {
    discover = quiet.parts.discover;
    set_secrets = quiet.parts.set_secrets;
    sync_refs = quiet.parts.sync_refs;
    sync_issues = λ m dry_run s. (err collision, s);
    sync_comments = quiet.parts.sync_comments;
    sync_pull_requests = quiet.parts.sync_pull_requests;
    sync_pull_request_comments = quiet.parts.sync_pull_request_comments;
    sync_releases = λ m dry_run s. (err "no releases", s);
  };
}

-- Two workers and one repository: it is fed, taken and finished, the channel is closed, and the worker leaves.
abbrev fed : Pool
fed = record (start_pool 2 (repository ∷ [])) { pending = []; jobs = repository ∷ [] }

abbrev taken : Pool
taken = record fed { jobs = []; idle = 0; busy = repository ∷ [] }

abbrev finished : Pool
finished = record taken { busy = []; idle = 1; finished = (repository, result) ∷ [] }

abbrev closed : Pool
closed = record finished { closed = true }

abbrev left : Pool
left = record closed { idle = 0 }

schedule : Steps quiet false 2 5 (start_pool 2 (repository ∷ [])) left
unfolding start_pool
schedule =
    step _ fed _
      (work _ _ (feed (start_pool 2 (repository ∷ [])) repository [] refl refl (omega arith)))
      (step _ taken _ (work _ _ (take fed repository [] 0 refl refl)) (
        step _ finished _
          (work _ _ (finish taken repository [] [] result refl (start, repository_done)))
          (step _ closed _ (work _ _ (close finished refl (inl refl)))
            (step _ left _ (work _ _ (leave closed 0 refl refl refl)) (stop left)))))

pool_complete_example :
    (tally (λ m. true) (done left.finished) ≡ tally (λ m. true) (repository ∷ []))
    × (result ∷ [] ≡ map (λ x. x.1) left.finished)
    × (left.lost ≡ [])
unfolding start_pool collect nat_eq
pool_complete_example =
    pool_complete quiet false 2 (repository ∷ []) 5 left (result ∷ []) schedule refl (λ m. true)

pool_terminates_example :
    (5 ≤ 5 * length (repository ∷ []) + 2)
    × (IsDone left ⊎ ((t : Pool) × Work quiet false 2 left t))
pool_terminates_example =
    pool_terminates quiet false 2 (repository ∷ []) 5 left start (omega arith) schedule
