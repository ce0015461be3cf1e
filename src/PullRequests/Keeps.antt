-- ===== src/PullRequests/Keeps.antt =====
-- The pull request reconciler changes the database only through the store, on every path and error.
use forge_sync.Base.{String, Bool, Option, none, some, List}
use forge_sync.Base.Int.{ℤ}
use forge_sync.Model.{PullRequest, PullRequestMapping, RepositoryMapping}
use forge_sync.Result.{Error, Result, ok, err}
use forge_sync.Effect.Within.{Within, within_rules}
use forge_sync.Matching.{Consumed}
use forge_sync.State.Db.{Db, Sys}
use forge_sync.State.Rules.{
  OnDb, StoreRules, on_db, Within-time_now, Within-external, Within-upsert_pull_request_mapping,
  Within-add_conflict, Within-list_pull_request_mappings, Within-record_pair,
}
use forge_sync.State.Extends.{Extends, Extends-rules}
use forge_sync.PullRequests.{
  CallError, Call, Reply, done, failed, Reconciler, Scope, attempt, pull_request_identified,
  pull_request_mapping, record_conflict, pairing_conflict,
}
use forge_sync.PullRequests.Switch.{
  advance, mapping_conflict, updated_forgejo, copy_to_forgejo, converged, updated_github,
  copy_to_github, compare_pair, reconcile_mapping,
}
use forge_sync.PullRequests.Create.{
  unless_paired, write_hash_pair, write_index_pair, pair_or_note, map_on_forgejo, note_on_github,
  adopted_on_forgejo, created_on_forgejo, create_on_forgejo, map_on_github, adopted_on_github,
  or_find, created_on_github, create_on_github,
}
use forge_sync.PullRequests.Cycle.{reconcile_lists, reconcile}

module _ {W : Type 0} {R : Db → Db → Type 0} (rules : StoreRules R) (r : Reconciler W) where
  open r use {env}

  Within-attempt : {A : Type 0} (call : Call W A) → Within (OnDb R) (attempt call)
  unfolding attempt
  Within-attempt call = record { at = λ s. rules.stays s.db }

  ruleset store = (
    within_rules, on_db, Within-time_now, Within-external, Within-attempt,
    Within-upsert_pull_request_mapping, Within-add_conflict, Within-list_pull_request_mappings,
  )

  Within-pull_request_mapping :
      (id : ℤ) (g f : PullRequest) → Within (OnDb R) (pull_request_mapping r id g f)
  unfolding pull_request_mapping
  Within-pull_request_mapping id g f = search (store, rules)

  module _ (scope : Scope) where
    Within-record_conflict :
        (kind key github_state forgejo_state last_known : String)
        → Within (OnDb R) (record_conflict r scope kind key github_state forgejo_state last_known)
    unfolding record_conflict
    Within-record_conflict kind key github_state forgejo_state last_known = search (store, rules)

    Within-pairing_conflict :
        (g f : PullRequest) (e : Error) → Within (OnDb R) (pairing_conflict r scope g f e)
    unfolding pairing_conflict
    Within-pairing_conflict g f e = search (store, rules, Within-record_conflict)

    Within-advance :
        (m : PullRequestMapping) (hash : String) → Within (OnDb R) (advance r scope m hash)
    unfolding advance
    Within-advance m hash = search (store, rules)

    ruleset steps = (
      store, Within-pull_request_mapping, Within-record_conflict, Within-pairing_conflict,
      Within-advance,
    )

    Within-updated_forgejo :
        (m : PullRequestMapping) (g f : PullRequest) (reply : Reply PullRequest)
        → Within (OnDb R) (updated_forgejo r scope m g f reply)
    unfolding updated_forgejo mapping_conflict
    Within-updated_forgejo m g f (done p) = search (steps, rules)
    Within-updated_forgejo m g f (failed e) = search (steps, rules)

    Within-converged :
        (m : PullRequestMapping) (g : PullRequest) (reply : Reply PullRequest)
        → Within (OnDb R) (converged r scope m g reply)
    unfolding converged
    Within-converged m g (done p) = search (steps, rules)
    Within-converged m g (failed e) = search (steps, rules)

    Within-updated_github :
        (m : PullRequestMapping) (g f : PullRequest) (reply : Reply PullRequest)
        → Within (OnDb R) (updated_github r scope m g f reply)
    unfolding updated_github
    Within-updated_github m g f (done p) = search (steps, rules)
    Within-updated_github m g f (failed e) = search (steps, rules, Within-converged)

    Within-compare_pair :
        (m : PullRequestMapping) (g f : PullRequest) → Within (OnDb R) (compare_pair r scope m g f)
    unfolding compare_pair copy_to_forgejo copy_to_github mapping_conflict
    Within-compare_pair m g f =
        search (steps, rules, Within-updated_forgejo, Within-updated_github) depth 9

    Within-reconcile_mapping :
        (m : PullRequestMapping) (g f : Option PullRequest) (c : Consumed)
        → Within (OnDb R) (reconcile_mapping r scope m g f c)
    unfolding reconcile_mapping mapping_conflict
    Within-reconcile_mapping m (some g) (some f) c = search (steps, rules, Within-compare_pair)
    Within-reconcile_mapping m (some g) none c = search (steps, rules) depth 9
    Within-reconcile_mapping m none (some f) c = search (steps, rules) depth 9
    Within-reconcile_mapping m none none c = search (steps, rules) depth 9

    Within-unless_paired :
        (g f : PullRequest) (outcome : Result (Unit {0}))
        → Within (OnDb R) (unless_paired r scope g f outcome)
    unfolding unless_paired
    Within-unless_paired g f (ok t) = search (steps, rules)
    Within-unless_paired g f (err e) = search (steps, rules)

    Within-write_hash_pair : (g f : PullRequest) → Within (OnDb R) (write_hash_pair r scope g f)
    unfolding write_hash_pair
    Within-write_hash_pair g f = search (steps, rules, Within-unless_paired) depth 9

    Within-write_index_pair : (g f : PullRequest) → Within (OnDb R) (write_index_pair r scope g f)
    unfolding write_index_pair
    Within-write_index_pair g f = search (steps, rules) depth 9

    Within-pair_or_note :
        (g f : PullRequest) (consumed spent : Consumed) (outcome : Result (Unit {0}))
        → Within (OnDb R) (pair_or_note r scope g f consumed spent outcome)
    unfolding pair_or_note
    Within-pair_or_note g f consumed spent (ok t) = search (steps, rules)
    Within-pair_or_note g f consumed spent (err e) = search (steps, rules)

    Within-map_on_forgejo :
        (g : PullRequest) (c : Consumed) (created : PullRequest)
        → Within (OnDb R) (map_on_forgejo r scope g c created)
    unfolding map_on_forgejo
    Within-map_on_forgejo g c created = search (steps, rules, Within-pair_or_note) depth 10

    Within-adopted_on_forgejo :
        (g : PullRequest) (e : CallError) (c : Consumed) (found : Option PullRequest)
        → Within (OnDb R) (adopted_on_forgejo r scope g e c found)
    unfolding adopted_on_forgejo note_on_github
    Within-adopted_on_forgejo g e c (some p) = search (Within-map_on_forgejo)
    Within-adopted_on_forgejo g e c none = search (steps, rules) depth 9

    Within-created_on_forgejo :
        (all : List PullRequest) (g : PullRequest) (c : Consumed) (reply : Reply PullRequest)
        → Within (OnDb R) (created_on_forgejo r scope all g c reply)
    unfolding created_on_forgejo note_on_github
    Within-created_on_forgejo all g c (done p) = search (Within-map_on_forgejo)
    Within-created_on_forgejo all g c (failed e) =
        search (steps, rules, Within-adopted_on_forgejo) depth 9

    Within-create_on_forgejo :
        (all : List PullRequest) (g : PullRequest) (c : Consumed)
        → Within (OnDb R) (create_on_forgejo r scope all g c)
    unfolding create_on_forgejo
    Within-create_on_forgejo all g c = search (steps, rules, Within-created_on_forgejo) depth 9

    Within-map_on_github :
        (f : PullRequest) (c : Consumed) (created : PullRequest)
        → Within (OnDb R) (map_on_github r scope f c created)
    unfolding map_on_github
    Within-map_on_github f c created = search (steps, rules, Within-pair_or_note) depth 10

    Within-adopted_on_github :
        (f : PullRequest) (c : Consumed) (found : Option PullRequest)
        → Within (OnDb R) (adopted_on_github r scope f c found)
    unfolding adopted_on_github
    Within-adopted_on_github f c (some p) = search (steps, rules, Within-map_on_github) depth 9
    Within-adopted_on_github f c none = search (steps, rules)

    Within-or_find :
        (f : PullRequest) (found : Option PullRequest) → Within (OnDb R) (or_find r scope f found)
    unfolding or_find
    Within-or_find f (some p) = search (steps, rules)
    Within-or_find f none = search (steps, rules)

    Within-created_on_github :
        (all : List PullRequest) (f : PullRequest) (c : Consumed) (reply : Reply PullRequest)
        → Within (OnDb R) (created_on_github r scope all f c reply)
    unfolding created_on_github
    Within-created_on_github all f c (done p) = search (Within-map_on_github)
    Within-created_on_github all f c (failed e) =
        search (steps, rules, Within-or_find, Within-adopted_on_github) depth 9

    Within-create_on_github :
        (all : List PullRequest) (f : PullRequest) (c : Consumed)
        → Within (OnDb R) (create_on_github r scope all f c)
    unfolding create_on_github
    Within-create_on_github all f c = search (steps, rules, Within-created_on_github) depth 9

    Within-reconcile_lists :
        (gs fs : List PullRequest) → Within (OnDb R) (reconcile_lists r scope gs fs)
    unfolding reconcile_lists
    Within-reconcile_lists gs fs =
        search
          (
            steps, rules, Within-record_pair, Within-reconcile_mapping, Within-write_hash_pair,
            Within-write_index_pair, Within-create_on_forgejo, Within-create_on_github,
          )
          depth 14

  pub Within-reconcile :
      (repository : RepositoryMapping) (dry_run : Bool)
      → Within (OnDb R) (reconcile r repository dry_run)
  unfolding reconcile
  Within-reconcile repository dry_run = search (store, rules, Within-reconcile_lists) depth 14

module _ {W : Type 0} (r : Reconciler W) (repository : RepositoryMapping) (dry_run : Bool)
    (s : Sys W) where
  -- Whatever the forges answer and whether it fails or not, reconciling pull requests leaves a mapping
  -- for every GitHub id that had one, and drops no conflict, delivery or mapped repository.
  pub pull_requests-Extends : Extends s.db (reconcile r repository dry_run s).1.db
  pull_requests-Extends = (Within-reconcile Extends-rules r repository dry_run).at s
