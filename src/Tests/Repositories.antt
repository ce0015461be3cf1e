-- ===== src/Tests/Repositories.antt =====
-- One mapped repository, and forges that hold an issue, a comment and a release on one side each.
use forge_sync.Base.{
  ℕ, suc, String, true, false, none, List, [], ◌∷◌, ◌≡◌, ◌≢◌, ◌==◌, refl, arith, string_eq, nat_eq,
  sort_by,
}
use forge_sync.Base.Dict.{Dict, insert, lookup}
use forge_sync.Base.Int.{ℤ, pos, int_eq}
use forge_sync.Model.{
  CommentMapping, RepositoryMapping, Issue, Comment, Release, ReleaseAsset, IssueMapping,
  PullRequestMapping,
}
use forge_sync.Result.{ok, err}
use forge_sync.Effect.{◌>>=◌, fold, for_each}
use forge_sync.Base.Text.{cut_at}
use forge_sync.Matching.{
  identity, external, validate_unique, unique_pairs, record_pair, record_found,
}
use forge_sync.Digest.{Digest, issue_hash, comment_hash}
use forge_sync.State.Db.{Db, Env, Sys, statement, stamp, time_now, upsert}
use forge_sync.State.Mappings.{list_issue_mappings, upsert_issue_mapping, write_issue, write_row}
use forge_sync.State.Conflicts.{add_conflict, insert_conflict}
use forge_sync.Issues.{
  IssueForge, validate_issues, validate_issue, reconcile_lists, reconcile_mapping, compare_pair,
  copy_to_forgejo, advance, unique_hash_pairs, index_title_pairs, write_hash_pair, write_index_pair,
  create_on_forgejo, create_on_github,
}
use forge_sync.Issues.{issue_mapping as issue_mapping_of}
use forge_sync.Issues.{reconcile as reconcile_issues}
use forge_sync.Issues.DryRun.{reads, reconcile_dry_run}
use forge_sync.Issues.Switch.{compare_pair_spares_forgejo, compare_pair_spares_github}
use forge_sync.Comments.{CommentForge}
use forge_sync.Comments.{compare_pair as compare_comments}
use forge_sync.Comments.Switch.{compare_comments_spares_forgejo}
use forge_sync.Releases.{record_skipped, copy_asset_to_forgejo, copy_asset_to_github, ReleaseForge}
use forge_sync.Releases.Assets.{oversized_asset_stays_on_github, oversized_asset_stays_on_forgejo}

-- The state of the outside is a clock.
abbrev pub env : Env ℕ
env = record { sqlite = λ w. (none, w); now = λ w. (suc w, suc w); format_time = λ t. "" }

abbrev pub digest : Digest
digest = record {
  sha256_hex = λ s. s;
  marshal_issue = λ i. i.title;
  marshal_pull_request = λ p. p.title;
  marshal_release = λ r. r.tag;
  marshal_repository = λ r. r.full_name;
}

abbrev pub in_order : Dict ℤ ℤ → Dict ℤ ℤ
in_order d = d

abbrev pub repository : RepositoryMapping
repository = record {
  github_id = pos 1;
  github_full_name = "o/r";
  forgejo_owner = "p";
  forgejo_name = "r";
  visibility = "private";
  archived = false;
  size_kb = pos 4;
  last_state_hash = "h";
  updated_at = 1;
}

abbrev issue_mapping : IssueMapping
issue_mapping = record {
  repository_github_id = pos 1;
  github_id = pos 40;
  forgejo_id = pos 50;
  github_index = pos 4;
  forgejo_index = pos 5;
  last_state_hash = "old";
  updated_at = 1;
}

abbrev pub pull_mapping : PullRequestMapping
pull_mapping = record {
  repository_github_id = pos 1;
  github_id = pos 41;
  forgejo_id = pos 51;
  github_index = pos 6;
  forgejo_index = pos 7;
  last_state_hash = "old";
  updated_at = 1;
}

abbrev pub db : Db
db = record {
  repositories = repository ∷ [];
  issues = issue_mapping ∷ [];
  pull_requests = pull_mapping ∷ [];
  comments = [];
  releases = [];
  deliveries = [];
  conflicts = [];
  conflict_seq = 0;
  runs = [];
  run_seq = 0;
}

abbrev pub start : Sys ℕ
start = record { db = db; world = 10 }

abbrev issue : ℤ → ℤ → String → Issue
issue id index title = record {
  id = id;
  index = index;
  title = title;
  body = "";
  state = "open";
  labels = [];
  milestone = "";
  updated_at = 3;
}

abbrev pub github_issues : IssueForge ℕ
github_issues = record {
  list_issues =
      λ o n w. (ok (issue (pos 40) (pos 4) "new" ∷ issue (pos 42) (pos 8) "more" ∷ []), w);
  create_issue = λ o n i w. (err "refused", w);
  update_issue = λ o n i x w. (err "refused", w);
}

abbrev pub forgejo_issues : IssueForge ℕ
forgejo_issues = record {
  list_issues = λ o n w. (ok (issue (pos 50) (pos 5) "old" ∷ []), w);
  create_issue = λ o n i w. (ok (issue (pos 52) (pos 9) i.title), w);
  update_issue = λ o n i x w. (ok x, w);
}

issues_reconciled :
    (reconcile_issues env digest in_order github_issues forgejo_issues repository false start).1.db
    ≡ record db {
      issues =
          record issue_mapping { last_state_hash = "new"; updated_at = 11 }
          ∷ record {
            repository_github_id = pos 1;
            github_id = pos 42;
            forgejo_id = pos 52;
            github_index = pos 8;
            forgejo_index = pos 9;
            last_state_hash = "more";
            updated_at = 12;
          }
          ∷ [];
    }
unfolding reconcile_issues string_eq ◌>>=◌ identity cut_at nat_eq external validate_issues
    validate_unique validate_issue reconcile_lists fold for_each list_issue_mappings statement stamp
    time_now reconcile_mapping compare_pair issue_hash copy_to_forgejo advance upsert_issue_mapping
    write_issue write_row upsert unique_hash_pairs index_title_pairs unique_pairs record_pair
    record_found write_hash_pair write_index_pair create_on_forgejo create_on_github
    issue_mapping_of int_eq insert lookup sort_by
issues_reconciled = refl

abbrev comment : ℤ → String → Comment
comment id body = record { id = id; issue_id = pos 0; body = body; updated_at = 3 }

abbrev comments_of : List Comment → CommentForge ℕ
comments_of all = record {
  list_comments = λ o n i w. (ok all, w);
  create_comment = λ o n i c w. (ok (comment (pos 90) c.body), w);
  update_comment = λ o n i c w. (err "refused", w);
}

abbrev release : ℤ → String → Release
release id tag = record {
  id = id;
  tag = tag;
  name = tag;
  body = "";
  draft = false;
  prerelease = false;
  created_at = 3;
  assets = record { id = pos 7; name = "a.zip"; size = pos 100 } ∷ [];
}

abbrev releases_of : List Release → ReleaseForge ℕ String
releases_of all = record {
  list_releases = λ o n w. (ok all, w);
  create_release = λ o n r w. (ok (release (pos 91) r.tag), w);
  update_release = λ o n i r w. (ok r, w);
  download_release_asset = λ o n i max w. (ok "zip", w);
  upload_release_asset = λ o n i name bytes w. (ok tt, w);
}

abbrev pub github_comments : CommentForge ℕ
github_comments = comments_of (comment (pos 60) "hello" ∷ [])

abbrev pub forgejo_comments : CommentForge ℕ
forgejo_comments = comments_of []

abbrev pub github_releases : ReleaseForge ℕ String
github_releases = releases_of (release (pos 70) "v1" ∷ [])

abbrev pub forgejo_releases : ReleaseForge ℕ String
forgejo_releases = releases_of []

pub differ : (s t : String) → (s == t) ≡ false → s ≢ t
differ s t h p = ground arith

mine_is_new : ◌≢◌ {A = String} "mine" "old"
unfolding string_eq
mine_is_new = differ "mine" "old" refl

yours_is_new : ◌≢◌ {A = String} "yours" "old"
unfolding string_eq
yours_is_new = differ "yours" "old" refl

compare_pair_spares_forgejo_example :
    compare_pair env digest in_order github_issues forgejo_issues repository "o" "r" false
      issue_mapping
      (issue (pos 40) (pos 4) "yours")
      (issue (pos 50) (pos 5) "mine")
    ≡ compare_pair env digest in_order github_issues github_issues repository "o" "r" false
        issue_mapping
        (issue (pos 40) (pos 4) "yours")
        (issue (pos 50) (pos 5) "mine")
unfolding issue_hash
compare_pair_spares_forgejo_example =
    compare_pair_spares_forgejo env digest in_order github_issues forgejo_issues repository "o" "r"
      false issue_mapping (issue (pos 40) (pos 4) "yours") (issue (pos 50) (pos 5) "mine")
      mine_is_new github_issues

compare_pair_spares_github_example :
    compare_pair env digest in_order github_issues forgejo_issues repository "o" "r" false
      issue_mapping
      (issue (pos 40) (pos 4) "yours")
      (issue (pos 50) (pos 5) "mine")
    ≡ compare_pair env digest in_order forgejo_issues forgejo_issues repository "o" "r" false
        issue_mapping
        (issue (pos 40) (pos 4) "yours")
        (issue (pos 50) (pos 5) "mine")
unfolding issue_hash
compare_pair_spares_github_example =
    compare_pair_spares_github env digest in_order github_issues forgejo_issues repository "o" "r"
      false issue_mapping (issue (pos 40) (pos 4) "yours") (issue (pos 50) (pos 5) "mine")
      yours_is_new forgejo_issues

reconcile_dry_run_example :
    (reconcile_issues env digest in_order github_issues forgejo_issues repository true start
      ≡ reads env github_issues.list_issues forgejo_issues.list_issues repository start)
    × ((reconcile_issues env digest in_order github_issues forgejo_issues repository true
          start).1.db
        ≡ db)
reconcile_dry_run_example =
    reconcile_dry_run env digest in_order github_issues forgejo_issues repository start

abbrev archive : ReleaseAsset
archive = record { id = pos 7; name = "a.zip"; size = pos 100 }

oversized_asset_stays_on_github_example :
    copy_asset_to_forgejo env digest in_order github_releases forgejo_releases
      (pos 50)
      repository
      "o"
      "r"
      []
      (release (pos 70) "v1")
      (release (pos 71) "v1")
      archive
      start
    ≡ copy_asset_to_forgejo env digest in_order forgejo_releases github_releases
        (pos 50)
        repository
        "o"
        "r"
        []
        (release (pos 70) "v1")
        (release (pos 71) "v1")
        archive
        start
unfolding record_skipped add_conflict stamp time_now insert_conflict statement nat_eq ◌>>=◌
oversized_asset_stays_on_github_example =
    oversized_asset_stays_on_github env digest in_order github_releases forgejo_releases (pos 50)
      repository "o" "r" [] (release (pos 70) "v1") (release (pos 71) "v1") archive start
      forgejo_releases github_releases refl refl refl

oversized_asset_stays_on_forgejo_example :
    copy_asset_to_github env digest in_order github_releases forgejo_releases
      (pos 50)
      repository
      "o"
      "r"
      []
      (release (pos 70) "v1")
      (release (pos 71) "v1")
      archive
      start
    ≡ copy_asset_to_github env digest in_order forgejo_releases github_releases
        (pos 50)
        repository
        "o"
        "r"
        []
        (release (pos 70) "v1")
        (release (pos 71) "v1")
        archive
        start
unfolding record_skipped add_conflict stamp time_now insert_conflict statement nat_eq ◌>>=◌
oversized_asset_stays_on_forgejo_example =
    oversized_asset_stays_on_forgejo env digest in_order github_releases forgejo_releases (pos 50)
      repository "o" "r" [] (release (pos 70) "v1") (release (pos 71) "v1") archive start
      forgejo_releases github_releases refl refl refl

abbrev comment_mapping : CommentMapping
comment_mapping = record {
  repository_github_id = pos 1;
  issue_github_id = pos 40;
  github_id = pos 60;
  forgejo_id = pos 70;
  last_state_hash = "old";
  updated_at = 1;
}

compare_comments_spares_forgejo_example :
    compare_comments env digest in_order github_comments forgejo_comments repository "o" "r" false
      comment_mapping
      (comment (pos 60) "yours")
      (comment (pos 70) "mine")
    ≡ compare_comments env digest in_order github_comments github_comments repository "o" "r" false
        comment_mapping
        (comment (pos 60) "yours")
        (comment (pos 70) "mine")
unfolding comment_hash
compare_comments_spares_forgejo_example =
    compare_comments_spares_forgejo env digest in_order github_comments forgejo_comments repository
      "o" "r" false comment_mapping (comment (pos 60) "yours") (comment (pos 70) "mine") mine_is_new
      github_comments
