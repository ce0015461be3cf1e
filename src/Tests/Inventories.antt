-- ===== src/Tests/Inventories.antt =====
-- Discover on one namespace with a repository that Forgejo has as a public one, and its secrets.
use forge_sync.Base.{
  ℕ, true, false, List, [], ◌∷◌, ◌≡◌, refl, ◌==◌, string_eq, nat_eq, filter, All, sort_by,
}
use forge_sync.Base.Dict.{lookup, insert}
use forge_sync.Base.Int.{pos, int_eq}
use forge_sync.Model.{Repository, ActionSecret}
use forge_sync.Result.{ok, err}
use forge_sync.Effect.{◌>>=◌, for_each, fold}
use forge_sync.State.Db.{statement}
use forge_sync.State.Mappings.{repository_by_github_id}
use forge_sync.State.Conflicts.{list_conflicts, open_conflicts}
use forge_sync.Matching.{external}
use forge_sync.Gitrefs.Policy.{string_le}
use forge_sync.Secrets.{SecretForge, secrets_of, new, reconcile}
use forge_sync.Secrets.Isolation.{secrets_of-new, secrets_isolated}
use forge_sync.Repositories.{
  RepositoryForgejo, Reconciler, Tally, namespace_allowed, validate_repository, on_sys, count,
  first_time, forgejo_owner, forgejo_target, index_names,
}
use forge_sync.Repositories.Cycle.{
  pair_existing, fail_closed, pair_or_migrate, reconcile_target, reconcile_source, list_redirected,
  discover_namespace, discover,
}
use forge_sync.Repositories.DryRun.{with_other_writes, discover_dry_run}
use forge_sync.Repositories.Safety.{discover_allowed}
use forge_sync.Engine.Cycle.{no_inventory}
use forge_sync.Tests.Repositories.{env, digest, repository, start}
use forge_sync.Tests.Pulls.{unicode}

abbrev source : Repository
source = record {
  id = pos 2;
  owner = "lost-rob0t";
  name = "x";
  full_name = "lost-rob0t/x";
  clone_url = "";
  default_branch = "main";
  visibility = "private";
  archived = false;
  size_kb = pos 1;
  updated_at = 3;
}

abbrev existing : Repository
existing = record source { id = pos 9; visibility = "public" }

-- Forgejo lists the public repository, and refuses every change.
abbrev refusing : RepositoryForgejo ℕ
refusing = record {
  list_repositories = λ n w. (ok (existing ∷ []), w);
  migrate_repository = λ r token w. (err "refused", w);
  update_repository_identity = λ a b c d w. (err "refused", w);
  update_repository_settings = λ r w. (err "refused", w);
}

abbrev reconciler : Reconciler ℕ
reconciler = record {
  env = env;
  digest = digest;
  unicode = unicode;
  github = record { list_repositories = λ n w. (ok (source ∷ []), w) };
  forgejo = refusing;
  github_token = "t";
  owner_map = [];
  repo_map = [];
}

abbrev tally : Tally ℕ
tally = record { sys = start; inventory = no_inventory; counted = [] }

abbrev permissive : RepositoryForgejo ℕ
permissive = record refusing {
  migrate_repository = λ r token w. (ok r, w);
  update_repository_settings = λ r w. (ok tt, w);
}

discover_dry_run_example :
    (discover reconciler true ("lost-rob0t" ∷ []) tally
      ≡ discover (with_other_writes reconciler permissive) true ("lost-rob0t" ∷ []) tally)
    × ((discover reconciler true ("lost-rob0t" ∷ []) tally).1.sys.db ≡ tally.sys.db)
discover_dry_run_example = discover_dry_run reconciler permissive ("lost-rob0t" ∷ []) tally

discovered : (discover reconciler true ("lost-rob0t" ∷ []) tally).0 ≡ ok tt
unfolding discover for_each ◌>>=◌ discover_namespace string_eq on_sys external count first_time fold
    list_redirected forgejo_target forgejo_owner lookup insert index_names reconcile_source
    validate_repository repository_by_github_id statement reconcile_target pair_or_migrate
    pair_existing fail_closed list_conflicts open_conflicts sort_by int_eq
discovered = refl

discover_allowed_example : All (λ n. namespace_allowed n ≡ true) ("lost-rob0t" ∷ [])
discover_allowed_example = discover_allowed reconciler true ("lost-rob0t" ∷ []) tally discovered

abbrev secrets : List ActionSecret
secrets =
    record { repository = "o/r"; name = "B"; value = "1" }
    ∷ record { repository = "o/q"; name = "A"; value = "2" }
    ∷ []

-- The same of this repository, and another secret of the other one.
abbrev others : List ActionSecret
others =
    record { repository = "o/q"; name = "C"; value = "3" }
    ∷ record { repository = "o/r"; name = "B"; value = "1" }
    ∷ []

abbrev secret_forge : SecretForge ℕ
secret_forge = record { set_action_secret = λ o n k v w. (ok tt, w) }

secrets_of-new_example :
    secrets_of "o/r" (new secrets)
    ≡ sort_by (λ a b. string_le a.name b.name) (filter (λ s. s.repository == "o/r") secrets)
secrets_of-new_example = secrets_of-new "o/r" secrets

same_own :
    filter (λ s. s.repository == repository.github_full_name) secrets
    ≡ filter (λ s. s.repository == repository.github_full_name) others
unfolding string_eq
same_own = refl

secrets_isolated_example :
    reconcile secret_forge (new secrets) repository false
    ≡ reconcile secret_forge (new others) repository false
secrets_isolated_example = secrets_isolated secret_forge repository false secrets others same_own
