-- ===== src/Tests/Rows.antt =====
-- internal/state/store.go: two rows of a mapping table, and a conflict that was resolved.
use forge_sync.Base.{
  ℕ, suc, true, none, some, List, [], ◌∷◌, ◌≡◌, refl, if◌then◌else◌, any, find, string_eq, nat_eq,
}
use forge_sync.Base.Int.{pos, int_eq}
use forge_sync.Model.{RepositoryMapping, IssueMapping, Conflict}
use forge_sync.Result.{ok}
use forge_sync.Effect.{◌>>=◌}
use forge_sync.State.Db.{Env, Sys, same_key, stamp, statement, upsert}
use forge_sync.State.Mappings.{issue_keyed, write_row}
use forge_sync.State.Conflicts.{same_conflict, insert_conflict, add_conflict, resolve_conflict}
use forge_sync.State.Rules.{Within-resolve_conflict}
use forge_sync.State.Extends.{Extends-rules, update_resolved-Extends}
use forge_sync.State.Lookup.{write_row-find, add_conflict_recorded}
use forge_sync.State.Repeats.{add_conflict_again}

abbrev env : Env ℕ
env = record { sqlite = λ w. (none, w); now = λ w. (suc w, suc w); format_time = λ t. "" }

abbrev first : IssueMapping
first = record {
  repository_github_id = pos 1;
  github_id = pos 40;
  forgejo_id = pos 50;
  github_index = pos 4;
  forgejo_index = pos 5;
  last_state_hash = "old";
  updated_at = 1;
}

abbrev second : IssueMapping
second = record first { github_id = pos 41; forgejo_id = pos 51 }

abbrev changed : IssueMapping
changed = record first { last_state_hash = "new"; updated_at = 2 }

abbrev repositories : List RepositoryMapping
repositories =
    record {
      github_id = pos 1;
      github_full_name = "o/r";
      forgejo_owner = "p";
      forgejo_name = "r";
      visibility = "private";
      archived = true;
      size_kb = pos 4;
      last_state_hash = "h";
      updated_at = 1;
    }
    ∷ []

written : write_row changed (first ∷ second ∷ []) repositories ≡ ok (changed ∷ second ∷ [])
unfolding write_row upsert int_eq nat_eq
written = refl

write_row-find_example : find (same_key second) (changed ∷ second ∷ []) ≡ (
    if same_key second changed then some changed else find (same_key second) (first ∷ second ∷ []))
write_row-find_example =
    write_row-find changed (first ∷ second ∷ []) (changed ∷ second ∷ []) repositories written second

abbrev resolved : Conflict
resolved = record {
  id = pos 1;
  kind = "issue";
  repository = "o/r";
  object_key = "github:40/forgejo:50";
  github_state = "a";
  forgejo_state = "b";
  last_known_state = "c";
  created_at = 1;
  resolved_at = some 2;
}

abbrev start : Sys ℕ
start = record {
  db = record {
    repositories = repositories;
    issues = [];
    pull_requests = [];
    comments = [];
    releases = [];
    deliveries = [];
    conflicts = resolved ∷ [];
    conflict_seq = 1;
    runs = [];
    run_seq = 0;
  };
  world = 10;
}

added : (add_conflict env resolved start).0 ≡ ok tt
unfolding add_conflict string_eq ◌>>=◌ stamp nat_eq statement insert_conflict
added = refl

add_conflict_recorded_example :
    any (same_conflict resolved) (add_conflict env resolved start).1.db.conflicts ≡ true
add_conflict_recorded_example = add_conflict_recorded env resolved start added

-- The conflict is recorded in an empty table, and resolved.
abbrev fresh : Sys ℕ
fresh = record start { db = record start.db { conflicts = []; conflict_seq = 0 } }

recorded : (add_conflict env resolved fresh).0 ≡ ok tt
unfolding add_conflict ◌>>=◌ stamp nat_eq statement insert_conflict
recorded = refl

abbrev later : Sys ℕ
later = (resolve_conflict env (pos 1) (add_conflict env resolved fresh).1).1

add_conflict_again_example : (add_conflict env resolved later).1.db ≡ later.db
add_conflict_again_example = add_conflict_again env resolved fresh later recorded (
    (Within-resolve_conflict Extends-rules env (pos 1) (update_resolved-Extends (pos 1))).at
      (add_conflict env resolved fresh).1)
