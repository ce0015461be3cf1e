-- ===== src/Tests/Pulls.antt =====
-- A repository with one mapped pull request that has changed on both sides, one that only GitHub has and
-- that Forgejo refuses to create, and one that Forgejo has for the same refs.
use forge_sync.Base.{ℕ, String, false, none, some, List, [], ◌∷◌, ◌≡◌, ◌≢◌, refl, string_eq, nat_eq}
use forge_sync.Base.Int.{ℤ, pos, int_eq}
use forge_sync.Base.Text.{Unicode, cut_prefix, trim_prefix}
use forge_sync.Model.{PullRequest}
use forge_sync.Result.{ok}
use forge_sync.Digest.{pull_request_hash}
use forge_sync.PullRequests.{
  CallError, PullRequestForge, Reconciler, Scope, done, failed, adopt_pull_request,
  adopt_pull_request_by_refs, normalized_title, trim_marks,
}
use forge_sync.PullRequests.Switch.{compare_pair}
use forge_sync.PullRequests.Spares.{compare_pulls_spares_github, compare_pulls_spares_both}
use forge_sync.PullRequests.Adoption.{IsAdopted, either-IsAdopted}
use forge_sync.Tests.Repositories.{env, digest, in_order, repository, pull_mapping, differ}

abbrev pub unicode : Unicode
unicode = record {
  is_space = λ c. false;
  trim_space = λ s. s;
  to_lower = λ s. s;
  equal_fold = λ a b. false;
}

abbrev pull : ℤ → ℤ → String → String → PullRequest
pull id index title head = record {
  id = id;
  index = index;
  title = title;
  body = "";
  state = "open";
  head = head;
  base = "main";
  draft = false;
  merged = false;
  updated_at = 3;
}

abbrev theirs : PullRequest
theirs = pull (pos 41) (pos 6) "yours" "a"

abbrev ours : PullRequest
ours = pull (pos 51) (pos 7) "mine" "a"

abbrev renamed : PullRequest
renamed = pull (pos 52) (pos 9) "fix" "b"

abbrev occupied : CallError
occupied = record { text = "conflict"; api_status = some (pos 409); sentinel = none }

abbrev pub pulls_of : List PullRequest → PullRequestForge ℕ
pulls_of all = record {
  list_pull_requests = λ o n w. (ok all, w);
  find_pull_request_by_head = λ o n h w. (ok none, w);
  create_pull_request = λ o n p w. (failed occupied, w);
  update_pull_request = λ o n i p w. (done p, w);
}

abbrev reconciler : Reconciler ℕ
reconciler = record {
  env = env;
  digest = digest;
  unicode = unicode;
  shuffle = in_order;
  github = pulls_of (theirs ∷ pull (pos 42) (pos 8) "Draft:fix" "b" ∷ []);
  forgejo = pulls_of (ours ∷ renamed ∷ []);
}

abbrev scope : Scope
scope = record { repository = repository; owner = "o"; name = "r"; dry_run = false }

yours_is_newer : ◌≢◌ {A = String} "yours" "old"
unfolding string_eq
yours_is_newer = differ "yours" "old" refl

mine_is_newer : ◌≢◌ {A = String} "mine" "old"
unfolding string_eq
mine_is_newer = differ "mine" "old" refl

compare_pulls_spares_github_example :
    compare_pair reconciler scope pull_mapping theirs ours
    ≡ compare_pair (record reconciler { github = pulls_of [] }) scope pull_mapping theirs ours
unfolding pull_request_hash
compare_pulls_spares_github_example =
    compare_pulls_spares_github reconciler scope pull_mapping theirs ours (pulls_of [])
      yours_is_newer

compare_pulls_spares_both_example :
    compare_pair reconciler scope pull_mapping theirs ours
    ≡ compare_pair
        (record reconciler { github = pulls_of []; forgejo = pulls_of [] })
        scope
        pull_mapping
        theirs
        ours
unfolding pull_request_hash
compare_pulls_spares_both_example =
    compare_pulls_spares_both reconciler scope pull_mapping theirs ours (pulls_of []) (pulls_of [])
      yours_is_newer mine_is_newer

either-IsAdopted_example :
    IsAdopted (ours ∷ renamed ∷ []) (pull (pos 42) (pos 8) "Draft:fix" "b") (pos 51 ∷ []) renamed
unfolding adopt_pull_request adopt_pull_request_by_refs normalized_title trim_marks trim_prefix
    cut_prefix int_eq string_eq nat_eq
either-IsAdopted_example =
    either-IsAdopted unicode (ours ∷ renamed ∷ []) (pull (pos 42) (pos 8) "Draft:fix" "b")
      (pos 51 ∷ []) renamed refl
