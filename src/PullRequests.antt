-- ===== src/PullRequests.antt =====
-- internal/pullrequests/reconcile.go: the forge calls with their kinds of error, the checks on what a
-- forge answers, the pairing of leftovers and the adoption of a pull request that is already there.
pub mod Switch
pub mod Create
pub mod Cycle
pub mod Spares
pub mod Keeps
pub mod Adoption
use forge_sync.Base.{
  String, ◌<>◌, Bool, true, false, not, ◌&&◌, ◌||◌, Option, none, some, List, [], ◌∷◌, ◌==◌,
  string_eq, bool_eq, if◌then◌else◌, find, contains, Eq,
}
use forge_sync.Base.Dict.{Dict}
use forge_sync.Base.Int.{ℤ, pos, int_eq, positive, format_int}
use forge_sync.Base.Text.{trim_prefix, contains_text, Unicode}
use forge_sync.Model.{PullRequest, PullRequestMapping, RepositoryMapping}
use forge_sync.Result.{Error, Result, ok, err}
use forge_sync.Effect.{Exec, pure, raise, ◌>>=◌}
use forge_sync.Digest.{Digest, pull_request_hash}
use forge_sync.State.Db.{Env, Sys, time_now}
use forge_sync.State.Mappings.{upsert_pull_request_mapping}
use forge_sync.State.Conflicts.{add_conflict}
use forge_sync.Matching.{Identified, validate_unique, unique_pairs, object_key}

-- The errors of the GitHub client that `errors.Is` looks for.
pub data Sentinel : Type 0 where
  cannot_reopen pull_request_exists no_commits : Sentinel

-- What `errors.As` and `errors.Is` find in an error of a call: the status of a `forgejo.APIError`, and
-- a sentinel of the GitHub client.
pub record CallError : Type 0 where
  pub text : Error
  pub api_status : Option ℤ
  pub sentinel : Option Sentinel

pub data Reply (A : Type 0) : Type 0 where
  done : A → Reply A
  failed : CallError → Reply A

-- A call whose error is looked at.
abbrev pub Call : Type 0 → Type 0 → Type 0
Call W A = W → Reply A × W

-- The interface `Forge` of the package, over the state `W` of the outside.
pub record PullRequestForge (W : Type 0) : Type 0 where
  pub list_pull_requests : String → String → Exec W (List PullRequest)
  pub find_pull_request_by_head : String → String → String → Exec W (Option PullRequest)
  pub create_pull_request : String → String → PullRequest → Call W PullRequest
  pub update_pull_request : String → String → ℤ → PullRequest → Call W PullRequest

-- The struct `Reconciler`, with what its methods need of the outside. `shuffle` is the order in which
-- Go ranges over a map of pairs.
pub record Reconciler (W : Type 0) : Type 0 where
  pub env : Env W
  pub digest : Digest
  pub unicode : Unicode
  pub shuffle : Dict ℤ ℤ → Dict ℤ ℤ
  pub github : PullRequestForge W
  pub forgejo : PullRequestForge W

-- The repository of a run, with the two halves of its GitHub name, and whether the run is dry.
pub record Scope : Type 0 where
  pub repository : RepositoryMapping
  pub owner : String
  pub name : String
  pub dry_run : Bool

instance abbrev pub pull_request_identified : Identified PullRequest
pull_request_identified = record { id_of = λ p. p.id }

-- A call of a forge that may fail; it changes the outside and not the database.
unfoldable pub attempt : {W A : Type 0} → Call W A → Exec (Sys W) (Reply A)
attempt call s = let (r, w) = call s.world in (ok r, record s { world = w })

-- `errors.As(err, &apiErr) && apiErr.StatusCode == status`
abbrev pub has_status : ℤ → CallError → Bool
has_status status e = elim e.api_status [ none ↦ false | some n ↦ n == status ]

abbrev pub is_sentinel : Sentinel → Sentinel → Bool
is_sentinel cannot_reopen cannot_reopen = true
is_sentinel pull_request_exists pull_request_exists = true
is_sentinel no_commits no_commits = true
is_sentinel _ _ = false

-- `errors.Is(err, sentinel)`
abbrev pub is : Sentinel → CallError → Bool
is sentinel e = elim e.sentinel [ none ↦ false | some found ↦ is_sentinel found sentinel ]

unfoldable pub validate_pull_request : PullRequest → Result (Unit {0})
validate_pull_request p =
    if not (positive p.id) || not (positive p.index) || p.title == ""
    then err "pull request identity or title is empty"
    else if not (p.state == "open") && not (p.state == "closed")
    then err ("pull request " <> format_int p.id <> " has invalid state " <> p.state)
    else if p.head == "" || p.base == ""
    then err ("pull request " <> format_int p.id <> " has empty head or base ref")
    else ok tt

unfoldable pub validate_pull_requests : List PullRequest → Result (Unit {0})
validate_pull_requests all =
    validate_unique validate_pull_request "duplicate pull request ID " all []

module _ (digest : Digest) where
  unfoldable pub state_or_missing : Option PullRequest → String
  state_or_missing none = "missing"
  state_or_missing (some p) = pull_request_hash digest p <> ":" <> format_int p.id

  unfoldable pub unique_hash_pairs : List PullRequest → List PullRequest → Dict ℤ ℤ
  unique_hash_pairs = unique_pairs (pull_request_hash digest) (λ g f. true)

module _ (unicode : Unicode) where
  unfoldable pub trim_marks : List String → String → String
  trim_marks [] title = title
  trim_marks (mark ∷ marks) title = trim_marks marks (unicode.trim_space (trim_prefix title mark))

  unfoldable pub normalized_title : String → String
  normalized_title title =
      unicode.to_lower (trim_marks ("WIP:" ∷ "Draft:" ∷ "[WIP]" ∷ []) (unicode.trim_space title))

  abbrev pub same_refs : PullRequest → PullRequest → Bool
  same_refs a b = a.head == b.head && a.base == b.base

  abbrev pub same_title : PullRequest → PullRequest → Bool
  same_title a b = normalized_title a.title == normalized_title b.title

  unfoldable pub index_title_pairs : List PullRequest → List PullRequest → Dict ℤ ℤ
  index_title_pairs = unique_pairs (λ p. p.index) (λ g f. same_title g f && same_refs g f)

  -- The first candidate that is not consumed and has the refs and the title of the pull request.
  unfoldable pub adopt_pull_request : List PullRequest → PullRequest → List ℤ → Option PullRequest
  adopt_pull_request candidates wanted consumed =
      find (λ c. not (contains consumed c.id) && same_title c wanted && same_refs c wanted)
        candidates

  -- The same, whatever the title.
  unfoldable pub adopt_pull_request_by_refs :
      List PullRequest → PullRequest → List ℤ → Option PullRequest
  adopt_pull_request_by_refs candidates wanted consumed =
      find (λ c. not (contains consumed c.id) && same_refs c wanted) candidates

module _ {W : Type 0} (r : Reconciler W) where
  unfoldable pub pull_request_mapping :
      ℤ → PullRequest → PullRequest → Exec (Sys W) PullRequestMapping
  pull_request_mapping repository_id g f = do
    now ← time_now r.env
    pure (record {
      repository_github_id = repository_id;
      github_id = g.id;
      forgejo_id = f.id;
      github_index = g.index;
      forgejo_index = f.index;
      last_state_hash = pull_request_hash r.digest g;
      updated_at = now;
    })

  unfoldable pub record_conflict :
      Scope → String → String → String → String → String → Exec (Sys W) (Unit {0})
  record_conflict scope kind key github_state forgejo_state last_known = do
    now ← time_now r.env
    add_conflict r.env (record {
      id = pos 0;
      kind = kind;
      repository = scope.repository.github_full_name;
      object_key = key;
      github_state = github_state;
      forgejo_state = forgejo_state;
      last_known_state = last_known;
      created_at = now;
      resolved_at = none;
    })

  -- A collision of mappings becomes a conflict; any other error is returned unchanged.
  unfoldable pub pairing_conflict :
      Scope → PullRequest → PullRequest → Error → Exec (Sys W) (Unit {0})
  pairing_conflict scope g f e =
      if contains_text e "UNIQUE constraint failed"
      then record_conflict scope "pull-request-pairing" (object_key g.id f.id)
          (pull_request_hash r.digest g) (pull_request_hash r.digest f) "already-paired"
      else raise e
