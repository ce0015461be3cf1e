-- ===== src/Tests/Syncs.antt =====
-- Sync between two remotes of which one has a branch that the other lacks, and git commands that fail.
use forge_sync.Base.{
  ℕ, ◌+◌, ◌≤◌, String, true, false, Option, none, some, List, [], ◌∷◌, ◌≡◌, ◌≢◌, ◌⊎◌, refl, arith,
  ◌==◌, string_eq, nat_eq, ◌&&◌, if◌then◌else◌, any, length, sort_by, insert_sorted,
}
use forge_sync.Base.Dict.{lookup, insert}
use forge_sync.Base.Int.{pos, int_eq}
use forge_sync.Base.Text.{cut_at}
use forge_sync.Result.{Result, ok, err}
use forge_sync.Effect.{◌>>=◌, for_each}
use forge_sync.State.Db.{Env, Sys}
use forge_sync.Matching.{external}
use forge_sync.Gitrefs.Policy.{
  github, forgejo, Refs, plan, plan_refs, union, add_all, decide_ref, append,
}
use forge_sync.Gitrefs.Policy.Effects.{deliver}
use forge_sync.Gitrefs.Sync.Buffer.{
  max_git_output, first, write_all, write_all-first, concat, empty_buffer,
}
use forge_sync.Gitrefs.Sync.Run.{
  Remote, Host, ran, exited, executed, run, git, fetch, fetch_with_retry, buffer_text,
}
use forge_sync.Gitrefs.Sync.Cycle.{
  SyncResult, Synchronizer, plan_from, push_action, carry_out, sync,
}
use forge_sync.Gitrefs.Sync.Delivers.{GitPushes, refs_of, carry_out_delivers}
use forge_sync.Gitrefs.Sync.Agrees.{is_divergence, sync_agrees}
use forge_sync.Gitrefs.Sync.DryRun.{OnlyPushes, is_push, sync_dry_run}
use forge_sync.Gitrefs.Sync.Fetch.{fetch_with_retry_waits}
use forge_sync.Tests.Repositories.{db, differ}
use forge_sync.Tests.Pulls.{unicode}

write_all-first_example :
    ((write_all empty_buffer ((1 ∷ 2 ∷ []) ∷ (3 ∷ []) ∷ [])).buffer
      ≡ first max_git_output (concat ((1 ∷ 2 ∷ []) ∷ (3 ∷ []) ∷ [])))
    × (length (write_all empty_buffer ((1 ∷ 2 ∷ []) ∷ (3 ∷ []) ∷ [])).buffer ≤ max_git_output)
write_all-first_example = write_all-first ((1 ∷ 2 ∷ []) ∷ (3 ∷ []) ∷ [])

-- The outside: the refs of the remotes, by URL.
abbrev World : Type 0
World = String → Refs

abbrev outside : Env World
outside = record { sqlite = λ w. (none, w); now = λ w. (1, w); format_time = λ t. "" }

-- `git push url spec` sets a ref; every other command does nothing.
abbrev pushed : String → Option (String × String) → World → World
pushed url none w = w
pushed url (some (sha, ref)) w = λ u. if u == url then insert ref sha (w u) else w u

abbrev act : List String → World → World
act (flag ∷ (dir ∷ (name ∷ (porcelain ∷ (url ∷ (spec ∷ [])))))) w =
    if flag == "--git-dir" && name == "push" then pushed url (cut_at b':' spec) w else w
act _ w = w

abbrev host : Host World
host = record {
  parse_url = λ url. some (record { scheme = "https"; host = "h"; has_user = false });
  mkdir_temp = λ pattern w. (ok "/tmp/x", w);
  chmod = λ name mode w. (ok tt, w);
  remove_all = λ name w. w;
  write_file = λ name body mode w. (ok tt, w);
  environ = [];
  execute = λ c w. (record { printed = []; context_error = none; exit = ran }, act c.arguments w);
  sleep = λ n w. (none, w);
  text = λ bytes. "";
}

abbrev synchronizer : Synchronizer World
synchronizer = record { env = outside; host = host; unicode = unicode }

abbrev remote : World → String → Refs
remote w url = w url

abbrev on_github : Remote
on_github = record { url = "g"; username = "x-access-token"; token = "t" }

abbrev on_forgejo : Remote
on_forgejo = record { url = "f"; username = "oauth2"; token = "t" }

abbrev before : Sys World
before = record {
  db = db;
  world = λ url. if url == "g" then ("refs/heads/main", "a1") ∷ [] else [];
}

abbrev result : SyncResult
result = record {
  actions = record { ref = "refs/heads/main"; sha = "a1"; from = github; to = forgejo } ∷ [];
  conflicts = [];
}

pushes : GitPushes synchronizer remote
unfolding string_eq
pushes = record {
  pushed = λ c w dir url spec sha ref h k x y u. rw h (rw k refl);
  written = λ name body mode w u. refl;
  told = λ w u. refl;
  queried = λ w u. refl;
}

apart : ◌≢◌ {A = String} "g" "f"
unfolding string_eq
apart = differ "g" "f" refl

planned :
    (plan_from synchronizer "o/r" on_github on_forgejo "/tmp/x/repository.git"
      (refs_of remote on_github on_forgejo github before.world)
      (refs_of remote on_github on_forgejo forgejo before.world)
      before.world).0
    ≡ ok result
unfolding plan_from plan string_eq nat_eq plan_refs union add_all sort_by insert_sorted decide_ref
    append lookup
planned = refl

carried :
    (carry_out synchronizer "o/r" on_github on_forgejo "/tmp/x/repository.git" result before).0
    ≡ ok result
unfolding carry_out for_each ◌>>=◌ external push_action git run executed string_eq buffer_text
    write_all
carried = refl

sync_agrees_example :
    (lookup "refs/heads/main" (
        refs_of remote on_github on_forgejo github
          (carry_out synchronizer "o/r" on_github on_forgejo "/tmp/x/repository.git" result
            before).1.world)
      ≡ lookup "refs/heads/main" (
          refs_of remote on_github on_forgejo forgejo
            (carry_out synchronizer "o/r" on_github on_forgejo "/tmp/x/repository.git" result
              before).1.world))
    ⊎ ((g : String) × (f : String) × (lookup "refs/heads/main"
            (refs_of remote on_github on_forgejo github before.world)
          ≡ some g)
        × (lookup "refs/heads/main" (refs_of remote on_github on_forgejo forgejo before.world)
            ≡ some f)
        × ((g == f) ≡ false)
        × (any
              (is_divergence "o/r" "refs/heads/main" g f)
              (carry_out synchronizer "o/r" on_github on_forgejo "/tmp/x/repository.git" result
                before).1.db.conflicts
            ≡ true))
unfolding cut_at nat_eq
sync_agrees_example =
    sync_agrees synchronizer remote pushes "o/r" on_github on_forgejo apart "/tmp/x/repository.git"
      result result before planned (refl, tt) carried "refs/heads/main"

carry_out_delivers_example :
    refs_of remote on_github on_forgejo forgejo
      (carry_out synchronizer "o/r" on_github on_forgejo "/tmp/x/repository.git" result
        before).1.world
    ≡ deliver forgejo result.actions (refs_of remote on_github on_forgejo forgejo before.world)
unfolding cut_at nat_eq
carry_out_delivers_example =
    carry_out_delivers synchronizer remote pushes "o/r" on_github on_forgejo apart
      "/tmp/x/repository.git" result result before (refl, tt) carried forgejo

executed_quiet :
    (arguments : List String) (w : World) → is_push arguments ≡ false → act arguments w ≡ w
executed_quiet (flag ∷ (dir ∷ (name ∷ (porcelain ∷ (url ∷ (spec ∷ [])))))) w h = rw h refl
executed_quiet (flag ∷ (dir ∷ (name ∷ (porcelain ∷ (url ∷ (spec ∷ (more ∷ rest))))))) w h = refl
executed_quiet (flag ∷ (dir ∷ (name ∷ (porcelain ∷ (url ∷ []))))) w h = refl
executed_quiet (flag ∷ (dir ∷ (name ∷ (porcelain ∷ [])))) w h = refl
executed_quiet (flag ∷ (dir ∷ (name ∷ []))) w h = refl
executed_quiet (flag ∷ (dir ∷ [])) w h = refl
executed_quiet (flag ∷ []) w h = refl
executed_quiet [] w h = refl

only_pushes : OnlyPushes host remote
only_pushes = record {
  executed = λ c w h. executed_quiet c.arguments w h;
  written = λ name body mode w. refl;
  made = λ name w. refl;
  owned = λ name mode w. refl;
  removed = λ name w. refl;
  slept = λ n w. refl;
}

sync_dry_run_example :
    ((sync synchronizer "o/r" on_github on_forgejo true before).1.db ≡ db)
    × (remote (sync synchronizer "o/r" on_github on_forgejo true before).1.world
        ≡ remote before.world)
sync_dry_run_example =
    sync_dry_run synchronizer remote only_pushes "o/r" on_github on_forgejo before

-- The outside is the time; git does not find the repository.
abbrev stubborn : Host ℕ
stubborn = record {
  parse_url = λ url. none;
  mkdir_temp = λ pattern w. (ok "/tmp/x", w);
  chmod = λ name mode w. (ok tt, w);
  remove_all = λ name w. w;
  write_file = λ name body mode w. (ok tt, w);
  environ = [];
  execute = λ c w. (record { printed = []; context_error = none; exit = exited (pos 128) }, w);
  sleep = λ n w. (none, w + n);
  text = λ bytes. "not found";
}

-- The outside is the outcomes so far; the network is down.
abbrev down : Host (List (Result (Unit {0})))
down = record {
  parse_url = λ url. none;
  mkdir_temp = λ pattern w. (ok "/tmp/x", w);
  chmod = λ name mode w. (ok tt, w);
  remove_all = λ name w. w;
  write_file = λ name body mode w. (ok tt, w);
  environ = [];
  execute = λ c w. (
    record { printed = []; context_error = none; exit = exited (pos 128) },
    err "fetch github refs: git exited 128: connection timed out" ∷ w,
  );
  sleep = λ n w. (none, w);
  text = λ bytes. "connection timed out";
}

abbrev three_rounds : Result (Unit {0}) × List (Result (Unit {0}))
three_rounds = fetch_with_retry down unicode "/tmp/x/repository.git" github on_github []

fetch_takes_no_time :
    (w : ℕ) → (fetch stubborn unicode "/tmp/x/repository.git" github on_github w).1 ≡ w
unfolding fetch ◌>>=◌ git run executed string_eq
fetch_takes_no_time w = refl

fetch_with_retry_waits_example :
    (fetch_with_retry stubborn unicode "/tmp/x/repository.git" github on_github 7).1
    ≤ 7 + 15000000000
fetch_with_retry_waits_example =
    fetch_with_retry_waits stubborn unicode "/tmp/x/repository.git" github on_github (λ w. w)
      fetch_takes_no_time (λ n w. omega arith) 7
