-- ===== src/Repositories.antt =====
-- internal/repository/reconcile.go: the repositories of the allowed namespaces are listed on both
-- forges, mapped, and migrated where Forgejo has none. The inventory that Discover counts is part of
-- its state, because an error returns what has been counted so far.
pub mod Cycle
pub mod Keeps
pub mod DryRun
pub mod Safety
use forge_sync.Base.{
  ℕ, suc, ◌+◌, String, ◌<>◌, Bool, true, false, not, ◌&&◌, ◌||◌, Option, none, some, List, [], ◌∷◌,
  ◌==◌, string_eq, if◌then◌else◌, contains,
}
use forge_sync.Base.Dict.{Dict, lookup, insert}
use forge_sync.Base.Int.{ℤ, pos, positive, format_int}
use forge_sync.Base.Text.{Unicode, cut_at}
use forge_sync.Model.{Repository, RepositoryMapping, Inventory}
use forge_sync.Result.{Error, Result, ok, err}
use forge_sync.Effect.{Exec, pure, raise, lift, wrapped, ◌>>=◌}
use forge_sync.Digest.{Digest, repository_hash}
use forge_sync.State.Db.{Env, Sys, time_now}
use forge_sync.State.Mappings.{upsert_repository}
use forge_sync.Matching.{external}

-- The interfaces `GitHub` and `Forgejo` of the package.
pub record RepositoryGithub (W : Type 0) : Type 0 where
  pub list_repositories : String → Exec W (List Repository)

pub record RepositoryForgejo (W : Type 0) : Type 0 where
  pub list_repositories : String → Exec W (List Repository)
  pub migrate_repository : Repository → String → Exec W Repository
  pub update_repository_identity : String → String → String → String → Exec W (Unit {0})
  pub update_repository_settings : Repository → Exec W (Unit {0})

-- The struct `Reconciler`, with what its methods need of the outside.
pub record Reconciler (W : Type 0) : Type 0 where
  pub env : Env W
  pub digest : Digest
  pub unicode : Unicode
  pub github : RepositoryGithub W
  pub forgejo : RepositoryForgejo W
  pub github_token : String
  pub owner_map : Dict String String
  pub repo_map : Dict String String

-- The variables of Discover: `inventory`, and the keys of `countedForgejo`.
pub record Tally (W : Type 0) : Type 0 where
  pub sys : Sys W
  pub inventory : Inventory
  pub counted : List String

-- `forgejoByName`
abbrev pub ByName : Type 0
ByName = Dict String Repository

unfoldable pub validate_repository : Repository → Result (Unit {0})
validate_repository r =
    if not (positive r.id) || r.name == "" || r.full_name == "" || r.owner == ""
    then err "GitHub returned an incomplete repository"
    else if not (r.full_name == r.owner <> "/" <> r.name)
    then err ("GitHub repository " <> r.full_name <> " has a malformed full name")
    else ok tt

module _ {W : Type 0} where
  -- A step on the database and the outside.
  unfoldable pub on_sys : {A : Type 0} → Exec (Sys W) A → Exec (Tally W) A
  on_sys m t = let (r, s) = m t.sys in (r, record t { sys = s })

  unfoldable pub count : (Inventory → Inventory) → Exec (Tally W) (Unit {0})
  count f t = (ok tt, record t { inventory = f t.inventory })

  -- `if countedForgejo[key] { first = false } else { countedForgejo[key] = true; first = true }`
  unfoldable pub first_time : String → Exec (Tally W) Bool
  first_time key t =
      if contains t.counted key
      then (ok false, t)
      else (ok true, record t { counted = key ∷ t.counted })

abbrev pub namespace_allowed : String → Bool
namespace_allowed namespace = namespace == "starintel-labs" || namespace == "lost-rob0t"

-- `owner_map`, `repo_map` and `unicode` below are the fields of the reconciler.
unfoldable pub forgejo_owner : Dict String String → String → String
forgejo_owner owner_map namespace = elim (lookup namespace owner_map) [
  | none ↦ namespace
  | some owner ↦ if owner == "" then namespace else owner
]

unfoldable pub forgejo_target : Dict String String → Repository → String → String × String
forgejo_target repo_map source namespace_owner = elim (lookup source.full_name repo_map) [
  | none ↦ (namespace_owner, source.name)
  | some target ↦ elim (cut_at b'/' target) [
    | none ↦ (namespace_owner, source.name)
    | some (owner, name) ↦
        if owner == "" || name == "" then (namespace_owner, source.name) else (owner, name)
  ]
]

-- `forgejoByName[strings.ToLower(repository.FullName)] = repository` for each
unfoldable pub index_names : Unicode → List Repository → ByName → ByName
index_names unicode [] by_name = by_name
index_names unicode (x ∷ rest) by_name =
    index_names unicode rest (insert (unicode.to_lower x.full_name) x by_name)

module _ {W : Type 0} (r : Reconciler W) where
  open r use {env, digest}

  unfoldable pub mapping_for_pair : Repository → String → String → Exec (Sys W) RepositoryMapping
  mapping_for_pair source owner name = do
    now ← time_now env
    pure (record {
      github_id = source.id;
      github_full_name = source.full_name;
      forgejo_owner = owner;
      forgejo_name = name;
      visibility = source.visibility;
      archived = source.archived;
      size_kb = source.size_kb;
      last_state_hash = repository_hash digest source;
      updated_at = now;
    })

  unfoldable pub mapping_for : Repository → Exec (Sys W) RepositoryMapping
  mapping_for x = do
    now ← time_now env
    pure (record {
      github_id = x.id;
      github_full_name = x.full_name;
      forgejo_owner = x.owner;
      forgejo_name = x.name;
      visibility = x.visibility;
      archived = x.archived;
      size_kb = x.size_kb;
      last_state_hash = repository_hash digest x;
      updated_at = now;
    })
