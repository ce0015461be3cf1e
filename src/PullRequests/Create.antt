-- ===== src/PullRequests/Create.antt =====
-- internal/pullrequests/reconcile.go: the pull requests that no mapping and no pair has consumed.
use forge_sync.Base.{
  String, ◌<>◌, ◌||◌, Option, none, some, List, ◌∷◌, string_eq, if◌then◌else◌, contains,
}
use forge_sync.Base.Int.{pos, int_eq, format_int}
use forge_sync.Model.{PullRequest}
use forge_sync.Result.{Result, ok, err}
use forge_sync.Effect.{Exec, pure, raise, lift, wrapped, caught, ◌>>=◌, ◌>>◌}
use forge_sync.Digest.{pull_request_hash}
use forge_sync.State.Db.{Sys}
use forge_sync.State.Mappings.{upsert_pull_request_mapping}
use forge_sync.Matching.{Consumed, object_key, external}
use forge_sync.PullRequests.{
  CallError, Reply, done, failed, Reconciler, Scope, attempt, pull_request_exists, no_commits,
  has_status, is, validate_pull_request, adopt_pull_request, adopt_pull_request_by_refs,
  pull_request_mapping, record_conflict, pairing_conflict,
}

-- `if !found { existing, found = ... }`
abbrev pub either : Option PullRequest → Option PullRequest → Option PullRequest
either none other = other
either (some p) other = some p

module _ {W : Type 0} (r : Reconciler W) (scope : Scope) where
  open r use {env, digest, unicode, github, forgejo}
  open scope use {repository, owner, name, dry_run}

  abbrev spend_github : PullRequest → Consumed → Consumed
  spend_github g c = record c { on_github = g.id ∷ c.on_github }

  abbrev spend_forgejo : PullRequest → Consumed → Consumed
  spend_forgejo f c = record c { on_forgejo = f.id ∷ c.on_forgejo }

  -- `if err := r.store.UpsertPullRequestMapping(...); err != nil { return r.pairingConflict(...) }`
  unfoldable pub unless_paired :
      PullRequest → PullRequest → Result (Unit {0}) → Exec (Sys W) (Unit {0})
  unless_paired g f (ok _) = pure tt
  unless_paired g f (err e) = pairing_conflict r scope g f e

  unfoldable pub write_hash_pair : PullRequest → PullRequest → Exec (Sys W) (Unit {0})
  write_hash_pair g f = do
    m ← pull_request_mapping r repository.github_id g f
    outcome ← caught (upsert_pull_request_mapping env m)
    unless_paired g f outcome

  -- The Forgejo state is the baseline.
  unfoldable pub write_index_pair : PullRequest → PullRequest → Exec (Sys W) (Unit {0})
  write_index_pair g f = do
    m ← pull_request_mapping r repository.github_id g f
    upsert_pull_request_mapping env (record m { last_state_hash = pull_request_hash digest f })

  -- The mapping of a new pair, or a conflict after which `spent` is what is consumed.
  unfoldable pub pair_or_note :
      PullRequest → PullRequest → Consumed → Consumed → Result (Unit {0}) → Exec (Sys W) Consumed
  pair_or_note g f consumed spent (ok _) = pure consumed
  pair_or_note g f consumed spent (err e) = do pairing_conflict r scope g f e; pure spent

  unfoldable pub map_on_forgejo : PullRequest → Consumed → PullRequest → Exec (Sys W) Consumed
  map_on_forgejo g consumed created = do
    wrapped "invalid created Forgejo pull request" (lift (validate_pull_request created))
    m ← pull_request_mapping r repository.github_id g created
    outcome ← caught (upsert_pull_request_mapping env m)
    pair_or_note g created consumed (spend_github g consumed) outcome

  -- The head is absent on Forgejo, or the refs are taken there by no pull request that can be adopted.
  unfoldable pub note_on_github : String → String → PullRequest → Consumed → Exec (Sys W) Consumed
  note_on_github kind forgejo_state g consumed = do
    record_conflict r scope kind ("github:" <> format_int g.id <> "/forgejo:-")
        (pull_request_hash digest g) forgejo_state "unpaired"
    pure (spend_github g consumed)

  unfoldable pub adopted_on_forgejo :
      PullRequest → CallError → Consumed → Option PullRequest → Exec (Sys W) Consumed
  adopted_on_forgejo g e consumed (some existing) = map_on_forgejo g consumed existing
  adopted_on_forgejo g e consumed none =
      if has_status (pos 409) e
      then note_on_github "pull-request-duplicate" "occupied-refs" g consumed
      else raise (
          "create Forgejo pull request from GitHub pull request "
          <> format_int g.id
          <> ": "
          <> e.text)

  unfoldable pub created_on_forgejo :
      List PullRequest → PullRequest → Consumed → Reply PullRequest → Exec (Sys W) Consumed
  created_on_forgejo forgejo_all g consumed (done created) = map_on_forgejo g consumed created
  created_on_forgejo forgejo_all g consumed (failed e) =
      if has_status (pos 404) e || has_status (pos 422) e
      then note_on_github "pull-request-empty" "uncreateable" g consumed
      else adopted_on_forgejo g e consumed (
          either (adopt_pull_request unicode forgejo_all g consumed.on_forgejo)
            (adopt_pull_request_by_refs unicode forgejo_all g consumed.on_forgejo))

  -- The body of the loop over GitHub's leftovers.
  unfoldable pub create_on_forgejo :
      List PullRequest → PullRequest → Consumed → Exec (Sys W) Consumed
  create_on_forgejo forgejo_all g consumed = if dry_run then pure consumed else do
    reply ← attempt (forgejo.create_pull_request repository.forgejo_owner repository.forgejo_name g)
    created_on_forgejo forgejo_all g consumed reply

  unfoldable pub map_on_github : PullRequest → Consumed → PullRequest → Exec (Sys W) Consumed
  map_on_github f consumed created = do
    wrapped "invalid created GitHub pull request" (lift (validate_pull_request created))
    m ← pull_request_mapping r repository.github_id created f
    outcome ← caught (upsert_pull_request_mapping env m)
    pair_or_note created f consumed (spend_forgejo f consumed) outcome

  -- A pull request that GitHub already has: it is adopted, unless another one is paired with it. The
  -- last `%w` is given a nil error.
  unfoldable pub adopted_on_github :
      PullRequest → Consumed → Option PullRequest → Exec (Sys W) Consumed
  adopted_on_github f consumed none = raise (
      "Forgejo pull request "
      <> format_int f.id
      <> " reports an existing GitHub pull request that cannot be found: %!w(<nil>)")
  adopted_on_github f consumed (some existing) =
      if contains consumed.on_github existing.id
      then (do
        record_conflict r scope "pull-request-duplicate" (object_key existing.id f.id)
            (pull_request_hash digest existing) (pull_request_hash digest f) "already-paired"
        pure (spend_forgejo f consumed))
      else map_on_github f consumed existing

  -- `FindPullRequestByHead`, if no candidate of the listing could be adopted.
  unfoldable pub or_find : PullRequest → Option PullRequest → Exec (Sys W) (Option PullRequest)
  or_find f (some existing) = pure (some existing)
  or_find f none =
      wrapped ("find GitHub pull request for head " <> f.head)
        (external (github.find_pull_request_by_head owner name f.head))

  unfoldable pub created_on_github :
      List PullRequest → PullRequest → Consumed → Reply PullRequest → Exec (Sys W) Consumed
  created_on_github github_all f consumed (done created) = map_on_github f consumed created
  created_on_github github_all f consumed (failed e) =
      if is pull_request_exists e
      then (do
        existing ← or_find f (adopt_pull_request_by_refs unicode github_all f consumed.on_github)
        adopted_on_github f consumed existing)
      else if is no_commits e
      then (do
        record_conflict r scope "pull-request-empty" ("github:-/forgejo:" <> format_int f.id)
            "no-diff" (pull_request_hash digest f) "unpaired"
        pure (spend_forgejo f consumed))
      else raise (
          "create GitHub pull request from Forgejo pull request "
          <> format_int f.id
          <> ": "
          <> e.text)

  -- The body of the loop over Forgejo's leftovers.
  unfoldable pub create_on_github :
      List PullRequest → PullRequest → Consumed → Exec (Sys W) Consumed
  create_on_github github_all f consumed = if dry_run then pure consumed else do
    reply ← attempt (github.create_pull_request owner name f)
    created_on_github github_all f consumed reply
