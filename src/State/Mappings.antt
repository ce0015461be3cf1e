-- ===== src/State/Mappings.antt =====
-- internal/state/store.go: the five mapping tables.

use forge_sync.Base.{
  String, Bool, not, ◌&&◌, ◌||◌, List, ◌==◌, if◌then◌else◌, any, filter, find, sort_by, string_eq,
  Option,
}
use forge_sync.Base.Int.{ℤ, int_eq, positive, leb_ℤ}
use forge_sync.Model.{
  RepositoryMapping, IssueMapping, PullRequestMapping, CommentMapping, ReleaseMapping,
  visibility_private, visibility_internal, visibility_public,
}
use forge_sync.Result.{Result, ok, err, ◌>>=◌ as ◌on_ok◌}
use forge_sync.Effect.{Exec, raise, wrapped, ◌>>=◌}
use forge_sync.Base.Text.{same_lower}
use forge_sync.Gitrefs.Policy.{string_le}
use forge_sync.State.Db.{
  Db, Env, Sys, Keyed, stamp, statement, query, same_key, same_forgejo, forgejo_columns, upsert,
}

instance abbrev pub issue_keyed : Keyed IssueMapping
issue_keyed = record {
  table = "issue_mappings";
  repository_of = λ m. m.repository_github_id;
  github_of = λ m. m.github_id;
  forgejo_of = λ m. m.forgejo_id;
}

instance abbrev pub pull_request_keyed : Keyed PullRequestMapping
pull_request_keyed = record {
  table = "pull_request_mappings";
  repository_of = λ m. m.repository_github_id;
  github_of = λ m. m.github_id;
  forgejo_of = λ m. m.forgejo_id;
}

instance abbrev pub comment_keyed : Keyed CommentMapping
comment_keyed = record {
  table = "comment_mappings";
  repository_of = λ m. m.repository_github_id;
  github_of = λ m. m.github_id;
  forgejo_of = λ m. m.forgejo_id;
}

instance abbrev pub release_keyed : Keyed ReleaseMapping
release_keyed = record {
  table = "release_mappings";
  repository_of = λ m. m.repository_github_id;
  github_of = λ m. m.github_id;
  forgejo_of = λ m. m.forgejo_id;
}

-- `github_id` is the PRIMARY KEY, and (forgejo_owner, forgejo_name) is UNIQUE.
abbrev pub same_repository : RepositoryMapping → RepositoryMapping → Bool
same_repository a b = a.github_id == b.github_id

abbrev pub same_path : RepositoryMapping → RepositoryMapping → Bool
same_path a b = a.forgejo_owner == b.forgejo_owner && a.forgejo_name == b.forgejo_name

-- `REFERENCES repository_mappings(github_id)`
abbrev pub has_repository : ℤ → List RepositoryMapping → Bool
has_repository id = any (λ r. r.github_id == id)

-- `CHECK (visibility IN ('private', 'internal', 'public'))`
abbrev pub valid_visibility : String → Bool
valid_visibility v = v == visibility_private || v == visibility_internal || v == visibility_public

abbrev pub repository_columns : String
repository_columns = "repository_mappings.forgejo_owner, repository_mappings.forgejo_name"

-- The INSERT of UpsertRepository.
unfoldable pub write_repository : RepositoryMapping → Db → Result (Unit {0} × Db)
write_repository mapping db =
    if valid_visibility mapping.visibility
    then (upsert repository_columns same_repository same_path mapping db.repositories on_ok λ rows.
        ok (tt, record db { repositories = rows }))
    else err "CHECK constraint failed: visibility IN ('private', 'internal', 'public')"

-- The INSERT of the four mapping tables, over the rows of one of them.
unfoldable pub write_row :
    {A : Type 0} ⦃k : Keyed A⦄ → A → List A → List RepositoryMapping → Result (List A)
write_row ⦃k⦄ row rows repositories =
    upsert (forgejo_columns k) same_key same_forgejo row rows on_ok λ rows'.
    if has_repository (k.repository_of row) repositories
    then ok rows'
    else err "FOREIGN KEY constraint failed"

unfoldable pub write_issue : IssueMapping → Db → Result (Unit {0} × Db)
write_issue m db =
    write_row m db.issues db.repositories on_ok λ rows. ok (tt, record db { issues = rows })

unfoldable pub write_pull_request : PullRequestMapping → Db → Result (Unit {0} × Db)
write_pull_request m db = write_row m db.pull_requests db.repositories on_ok λ rows.
    ok (tt, record db { pull_requests = rows })

unfoldable pub write_comment : CommentMapping → Db → Result (Unit {0} × Db)
write_comment m db =
    write_row m db.comments db.repositories on_ok λ rows. ok (tt, record db { comments = rows })

unfoldable pub write_release : ReleaseMapping → Db → Result (Unit {0} × Db)
write_release m db =
    write_row m db.releases db.repositories on_ok λ rows. ok (tt, record db { releases = rows })

-- The rows of one repository, `ORDER BY github_id`.
abbrev pub rows_of : {A : Type 0} ⦃k : Keyed A⦄ → ℤ → List A → List A
rows_of ⦃k⦄ id rows =
    sort_by (λ a b. leb_ℤ (k.github_of a) (k.github_of b))
      (filter (λ row. k.repository_of row == id) rows)

module _ {W : Type 0} (env : Env W) where
  unfoldable pub upsert_repository : RepositoryMapping → Exec (Sys W) (Unit {0})
  upsert_repository m =
      if not (positive m.github_id)
        || m.github_full_name == ""
        || m.forgejo_owner == ""
        || m.forgejo_name == ""
      then raise "repository mapping is incomplete"
      else do
        updated ← stamp env m.updated_at
        wrapped "upsert repository mapping"
            (statement env (write_repository (record m { updated_at = updated })))

  unfoldable pub repository_by_github_id : ℤ → Exec (Sys W) (Option RepositoryMapping)
  repository_by_github_id id =
      wrapped "get repository mapping"
        (query env (λ db. find (λ r. r.github_id == id) db.repositories))

  unfoldable pub repositories_by_forgejo_path :
      String → String → Exec (Sys W) (List RepositoryMapping)
  repositories_by_forgejo_path owner name = wrapped "find repository mappings by Forgejo path" (
      query env (λ db.
        sort_by (λ a b. string_le a.github_full_name b.github_full_name)
          (filter (λ m. same_lower m.forgejo_owner owner && same_lower m.forgejo_name name)
            db.repositories)))

  unfoldable pub list_repositories : Exec (Sys W) (List RepositoryMapping)
  list_repositories = wrapped "list repository mappings" (
      query env
        (λ db. sort_by (λ a b. string_le a.github_full_name b.github_full_name) db.repositories))

  unfoldable pub upsert_issue_mapping : IssueMapping → Exec (Sys W) (Unit {0})
  upsert_issue_mapping m =
      if not (positive m.repository_github_id)
        || not (positive m.github_id)
        || not (positive m.forgejo_id)
        || not (positive m.github_index)
        || not (positive m.forgejo_index)
        || m.last_state_hash == ""
      then raise "issue mapping is incomplete"
      else do
        updated ← stamp env m.updated_at
        wrapped "upsert issue mapping"
            (statement env (write_issue (record m { updated_at = updated })))

  unfoldable pub list_issue_mappings : ℤ → Exec (Sys W) (List IssueMapping)
  list_issue_mappings id = wrapped "list issue mappings" (query env (λ db. rows_of id db.issues))

  unfoldable pub upsert_pull_request_mapping : PullRequestMapping → Exec (Sys W) (Unit {0})
  upsert_pull_request_mapping m =
      if not (positive m.repository_github_id)
        || not (positive m.github_id)
        || not (positive m.forgejo_id)
        || not (positive m.github_index)
        || not (positive m.forgejo_index)
        || m.last_state_hash == ""
      then raise "pull request mapping is incomplete"
      else do
        updated ← stamp env m.updated_at
        wrapped "upsert pull request mapping"
            (statement env (write_pull_request (record m { updated_at = updated })))

  unfoldable pub list_pull_request_mappings : ℤ → Exec (Sys W) (List PullRequestMapping)
  list_pull_request_mappings id =
      wrapped "list pull request mappings" (query env (λ db. rows_of id db.pull_requests))

  unfoldable pub upsert_comment_mapping : CommentMapping → Exec (Sys W) (Unit {0})
  upsert_comment_mapping m =
      if not (positive m.repository_github_id)
        || not (positive m.issue_github_id)
        || not (positive m.github_id)
        || not (positive m.forgejo_id)
        || m.last_state_hash == ""
      then raise "comment mapping is incomplete"
      else do
        updated ← stamp env m.updated_at
        wrapped "upsert comment mapping"
            (statement env (write_comment (record m { updated_at = updated })))

  unfoldable pub list_comment_mappings : ℤ → ℤ → Exec (Sys W) (List CommentMapping)
  list_comment_mappings id issue =
      wrapped "list comment mappings"
        (query env (λ db. rows_of id (filter (λ m. m.issue_github_id == issue) db.comments)))

  unfoldable pub upsert_release_mapping : ReleaseMapping → Exec (Sys W) (Unit {0})
  upsert_release_mapping m =
      if not (positive m.repository_github_id)
        || not (positive m.github_id)
        || not (positive m.forgejo_id)
        || m.tag == ""
        || m.last_state_hash == ""
      then raise "release mapping is incomplete"
      else do
        updated ← stamp env m.updated_at
        wrapped "upsert release mapping"
            (statement env (write_release (record m { updated_at = updated })))

  unfoldable pub list_release_mappings : ℤ → Exec (Sys W) (List ReleaseMapping)
  list_release_mappings id =
      wrapped "list release mappings" (query env (λ db. rows_of id db.releases))
