-- ===== src/Secrets.antt =====
-- internal/secrets/reconcile.go: the Actions secrets of the configuration, set on Forgejo.
pub mod Isolation
use forge_sync.Base.{
  String, ◌<>◌, Bool, true, false, ◌||◌, List, [], ◌∷◌, ◌++◌, ◌==◌, string_eq, if◌then◌else◌,
  sort_by, none, some,
}
use forge_sync.Base.Dict.{Dict, lookup, insert}
use forge_sync.Model.{ActionSecret, RepositoryMapping}
use forge_sync.Effect.{Exec, pure, raise, wrapped, for_each}
use forge_sync.Gitrefs.Policy.{string_le}

-- The interface `Forgejo` of the package.
pub record SecretForge (W : Type 0) : Type 0 where
  pub set_action_secret : String → String → String → String → Exec W (Unit {0})

-- `byRepo`, and `byRepo[repository]`, which is nil without an entry.
abbrev pub ByRepo : Type 0
ByRepo = Dict String (List ActionSecret)

unfoldable pub secrets_of : String → ByRepo → List ActionSecret
secrets_of repository by_repo = elim (lookup repository by_repo) [
  | none ↦ []
  | some secrets ↦ secrets
]

-- The first loop of `New`: each secret goes to the end of the list of its repository.
unfoldable pub group : List ActionSecret → ByRepo → ByRepo
group [] by_repo = by_repo
group (secret ∷ rest) by_repo =
    group rest
      (insert secret.repository (secrets_of secret.repository by_repo ++ secret ∷ []) by_repo)

-- `sort.Slice` by name. The configuration has no name twice in a repository, so it does not matter that
-- it is not stable.
abbrev pub sorted : List ActionSecret → List ActionSecret
sorted = sort_by (λ a b. string_le a.name b.name)

-- The second loop of `New`, over the map; the order of the keys does not matter, since each step writes its own.
unfoldable pub sort_each : ByRepo → ByRepo
sort_each [] = []
sort_each ((repository, secrets) ∷ rest) = (repository, sorted secrets) ∷ sort_each rest

unfoldable pub new : List ActionSecret → ByRepo
new configured = sort_each (group configured [])

abbrev is_empty : List ActionSecret → Bool
is_empty [] = true
is_empty (s ∷ rest) = false

module _ {W : Type 0} (forgejo : SecretForge W) where
  unfoldable pub set_secret : RepositoryMapping → ActionSecret → Exec W (Unit {0})
  set_secret mapping s =
      wrapped ("synchronize Actions secret " <> s.name <> " for " <> mapping.github_full_name)
        (forgejo.set_action_secret mapping.forgejo_owner mapping.forgejo_name s.name s.value)

  unfoldable pub reconcile : ByRepo → RepositoryMapping → Bool → Exec W (Unit {0})
  reconcile by_repo mapping dry_run =
      let secrets = secrets_of mapping.github_full_name by_repo in
      if is_empty secrets || dry_run
      then pure tt
      else if mapping.forgejo_owner == "" || mapping.forgejo_name == ""
      then raise ("Forgejo mapping for " <> mapping.github_full_name <> " is incomplete")
      else for_each (set_secret mapping) secrets
