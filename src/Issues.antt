-- ===== src/Issues.antt =====
-- internal/issues/reconcile.go
pub mod Switch
pub mod DryRun
pub mod Keeps
use forge_sync.Base.{
  ℕ, String, ◌<>◌, Bool, true, false, not, ◌&&◌, ◌||◌, Option, none, some, List, [], ◌∷◌, ◌==◌,
  string_eq, if◌then◌else◌,
}
use forge_sync.Base.Dict.{Dict}
use forge_sync.Base.Int.{ℤ, pos, int_eq, positive, format_int}
use forge_sync.Model.{Issue, IssueMapping, RepositoryMapping, Conflict}
use forge_sync.Result.{Result, ok, err}
use forge_sync.Effect.{Exec, pure, raise, lift, wrapped, ◌>>=◌, ◌>>◌, fold, for_each}
use forge_sync.Digest.{Digest, issue_hash}
use forge_sync.State.Db.{Env, Sys, time_now}
use forge_sync.State.Mappings.{upsert_issue_mapping, list_issue_mappings}
use forge_sync.State.Conflicts.{add_conflict}
use forge_sync.Matching.{
  Identified, Consumed, consume, by_id, unconsumed, validate_unique, unique_pairs, object_key,
  external, identity, record_pair,
}

-- The interface `Forge` of the package, over the state `W` of the outside.
pub record IssueForge (W : Type 0) : Type 0 where
  pub list_issues : String → String → Exec W (List Issue)
  pub create_issue : String → String → Issue → Exec W Issue
  pub update_issue : String → String → ℤ → Issue → Exec W Issue

instance abbrev pub issue_identified : Identified Issue
issue_identified = record { id_of = λ i. i.id }

unfoldable pub validate_issue : Issue → Result (Unit {0})
validate_issue i =
    if not (positive i.id) || not (positive i.index) || i.title == ""
    then err "issue identity or title is empty"
    else if i.state == "open" || i.state == "closed"
    then ok tt
    else err ("issue " <> format_int i.id <> " has invalid state " <> i.state)

unfoldable pub validate_issues : List Issue → Result (Unit {0})
validate_issues all = validate_unique validate_issue "duplicate issue ID " all []

module _ (digest : Digest) where
  unfoldable pub state_or_missing : Option Issue → String
  state_or_missing none = "missing"
  state_or_missing (some i) = issue_hash digest i <> ":" <> format_int i.id

  unfoldable pub unique_hash_pairs : List Issue → List Issue → Dict ℤ ℤ
  unique_hash_pairs = unique_pairs (issue_hash digest) (λ g f. true)

-- Pairs leftovers whose index and title match.
unfoldable pub index_title_pairs : List Issue → List Issue → Dict ℤ ℤ
index_title_pairs = unique_pairs (λ i. i.index) (λ g f. g.title == f.title)

-- `shuffle` is the order in which Go ranges over a map of pairs.
module _ {W : Type 0} (env : Env W) (digest : Digest) (shuffle : Dict ℤ ℤ → Dict ℤ ℤ)
    (github forgejo : IssueForge W) where
  unfoldable pub issue_mapping : ℤ → Issue → Issue → Exec (Sys W) IssueMapping
  issue_mapping repository_id g f = do
    now ← time_now env
    pure (record {
      repository_github_id = repository_id;
      github_id = g.id;
      forgejo_id = f.id;
      github_index = g.index;
      forgejo_index = f.index;
      last_state_hash = issue_hash digest g;
      updated_at = now;
    })

  module _ (repository : RepositoryMapping) (owner name : String) (dry_run : Bool) where
    -- Sets the hash and the time of a mapping, and writes it.
    unfoldable pub advance : IssueMapping → String → Exec (Sys W) (Unit {0})
    advance m hash = do
      now ← time_now env
      upsert_issue_mapping env (record m { last_state_hash = hash; updated_at = now })

    unfoldable pub conflict : String → IssueMapping → String → String → Exec (Sys W) (Unit {0})
    conflict kind m github_state forgejo_state = do
      now ← time_now env
      add_conflict env (record {
        id = pos 0;
        kind = kind;
        repository = repository.github_full_name;
        object_key = object_key m.github_id m.forgejo_id;
        github_state = github_state;
        forgejo_state = forgejo_state;
        last_known_state = m.last_state_hash;
        created_at = now;
        resolved_at = none;
      })

    unfoldable pub copy_to_forgejo : IssueMapping → Issue → Exec (Sys W) (Unit {0})
    copy_to_forgejo m g = do
      _ ← wrapped ("copy GitHub issue " <> format_int m.github_id <> " to Forgejo") (
          external (
            forgejo.update_issue repository.forgejo_owner repository.forgejo_name m.forgejo_index
              g))
      advance m (issue_hash digest g)

    unfoldable pub copy_to_github : IssueMapping → Issue → Exec (Sys W) (Unit {0})
    copy_to_github m f = do
      _ ←
          wrapped ("copy Forgejo issue " <> format_int m.forgejo_id <> " to GitHub")
            (external (github.update_issue owner name m.github_index f))
      advance m (issue_hash digest f)

    -- The `switch` on the two hashes of a mapped pair.
    unfoldable pub compare_pair : IssueMapping → Issue → Issue → Exec (Sys W) (Unit {0})
    compare_pair m g f =
        if issue_hash digest g == issue_hash digest f
        then if not dry_run && not (m.last_state_hash == issue_hash digest g)
          then advance m (issue_hash digest g)
          else pure tt
        else if issue_hash digest f == m.last_state_hash
        then if dry_run then pure tt else copy_to_forgejo m g
        else if issue_hash digest g == m.last_state_hash
        then if dry_run then pure tt else copy_to_github m f
        else if dry_run
        then pure tt
        else conflict "issue" m (issue_hash digest g) (issue_hash digest f)

    -- The body of the loop over the mappings, given what `byID` holds for the two ids.
    unfoldable pub reconcile_mapping :
        IssueMapping → Option Issue → Option Issue → Consumed → Exec (Sys W) Consumed
    reconcile_mapping m (some g) (some f) consumed = do
      compare_pair m g f
      pure (consume g.id f.id consumed)
    reconcile_mapping m found_github found_forgejo consumed = if dry_run then pure consumed else do
      conflict "issue-missing" m (state_or_missing digest found_github)
          (state_or_missing digest found_forgejo)
      pure consumed

    unfoldable pub write_hash_pair : Issue → Issue → Exec (Sys W) (Unit {0})
    write_hash_pair g f = do m ← issue_mapping repository.github_id g f; upsert_issue_mapping env m

    -- The Forgejo state is the baseline.
    unfoldable pub write_index_pair : Issue → Issue → Exec (Sys W) (Unit {0})
    write_index_pair g f = do
      m ← issue_mapping repository.github_id g f
      upsert_issue_mapping env (record m { last_state_hash = issue_hash digest f })

    unfoldable pub create_on_forgejo : Issue → Exec (Sys W) (Unit {0})
    create_on_forgejo g = if dry_run then pure tt else do
      created ←
          wrapped ("create Forgejo issue from GitHub issue " <> format_int g.id)
            (external (forgejo.create_issue repository.forgejo_owner repository.forgejo_name g))
      wrapped "invalid created Forgejo issue" (lift (validate_issue created))
      write_hash_pair g created

    unfoldable pub create_on_github : Issue → Exec (Sys W) (Unit {0})
    create_on_github f = if dry_run then pure tt else do
      created ←
          wrapped ("create GitHub issue from Forgejo issue " <> format_int f.id)
            (external (github.create_issue owner name f))
      wrapped "invalid created GitHub issue" (lift (validate_issue created))
      write_hash_pair created f

    -- The four loops of Reconcile, after both lists have been read and validated.
    unfoldable pub reconcile_lists : List Issue → List Issue → Exec (Sys W) (Unit {0})
    reconcile_lists github_issues forgejo_issues = do
      mappings ← list_issue_mappings env repository.github_id
      mapped ←
          fold
            (λ m c.
              reconcile_mapping m (by_id github_issues m.github_id)
                (by_id forgejo_issues m.forgejo_id) c)
            mappings (record { on_github = []; on_forgejo = [] })
      hashed ←
          fold (record_pair dry_run write_hash_pair github_issues forgejo_issues)
            (shuffle (
              unique_hash_pairs digest (unconsumed github_issues mapped.on_github)
                (unconsumed forgejo_issues mapped.on_forgejo)))
            mapped
      indexed ←
          fold (record_pair dry_run write_index_pair github_issues forgejo_issues)
            (shuffle (
              index_title_pairs (unconsumed github_issues hashed.on_github)
                (unconsumed forgejo_issues hashed.on_forgejo)))
            hashed
      for_each create_on_forgejo (unconsumed github_issues indexed.on_github)
      for_each create_on_github (unconsumed forgejo_issues indexed.on_forgejo)

  unfoldable pub reconcile : RepositoryMapping → Bool → Exec (Sys W) (Unit {0})
  reconcile repository dry_run = do
    (owner, name) ← lift (identity repository)
    github_issues ← wrapped "list GitHub issues" (external (github.list_issues owner name))
    forgejo_issues ←
        wrapped "list Forgejo issues"
          (external (forgejo.list_issues repository.forgejo_owner repository.forgejo_name))
    wrapped "invalid GitHub issue response" (lift (validate_issues github_issues))
    wrapped "invalid Forgejo issue response" (lift (validate_issues forgejo_issues))
    reconcile_lists repository owner name dry_run github_issues forgejo_issues
