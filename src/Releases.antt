-- ===== src/Releases.antt =====
-- internal/releases/reconcile.go
pub mod Assets
pub mod Keeps
use forge_sync.Base.{
  ℕ, String, ◌<>◌, Bool, true, false, not, ◌&&◌, ◌||◌, Option, none, some, List, [], ◌∷◌, ◌==◌, map,
  string_eq, if◌then◌else◌, contains,
}
use forge_sync.Base.Dict.{Dict}
use forge_sync.Base.Int.{ℤ, pos, int_eq, positive, leb_ℤ, format_int}
use forge_sync.Model.{Release, ReleaseAsset, ReleaseMapping, RepositoryMapping, Conflict}
use forge_sync.Result.{Result, ok, err}
use forge_sync.Effect.{Exec, pure, raise, lift, succeeded, wrapped, ◌>>=◌, ◌>>◌, fold, for_each}
use forge_sync.Digest.{Digest, release_hash}
use forge_sync.State.Db.{Env, Sys, time_now}
use forge_sync.State.Mappings.{upsert_release_mapping, list_release_mappings}
use forge_sync.State.Conflicts.{add_conflict}
use forge_sync.Matching.{
  Identified, Consumed, consume, by_id, unconsumed, validate_unique, unique_pairs, object_key,
  external, identity, record_pair,
}

-- The interface `Forge` of the package, over the state `W` of the outside. `Bytes` is `[]byte`.
pub record ReleaseForge (W Bytes : Type 0) : Type 0 where
  pub list_releases : String → String → Exec W (List Release)
  pub create_release : String → String → Release → Exec W Release
  pub update_release : String → String → ℤ → Release → Exec W Release
  pub download_release_asset : String → String → ℤ → ℤ → Exec W Bytes
  pub upload_release_asset : String → String → ℤ → String → Bytes → Exec W (Unit {0})

instance abbrev pub release_identified : Identified Release
release_identified = record { id_of = λ r. r.id }

unfoldable pub validate_release : Release → Result (Unit {0})
validate_release r =
    if not (positive r.id) || r.tag == "" then err "release identity or tag is empty" else ok tt

unfoldable pub validate_releases : List Release → Result (Unit {0})
validate_releases all = validate_unique validate_release "duplicate release ID " all []

module _ (digest : Digest) where
  unfoldable pub state_or_missing : Option Release → String
  state_or_missing none = "missing"
  state_or_missing (some r) = release_hash digest r <> ":" <> format_int r.id

  unfoldable pub unique_hash_pairs : List Release → List Release → Dict ℤ ℤ
  unique_hash_pairs = unique_pairs (release_hash digest) (λ g f. true)

unfoldable pub tag_pairs : List Release → List Release → Dict ℤ ℤ
tag_pairs = unique_pairs (λ r. r.tag) (λ g f. true)

-- The ids that a pair of a mapping and the two lists consumes, with one side missing.
abbrev pub pin : Option Release → List ℤ → List ℤ
pin none ids = ids
pin (some r) ids = r.id ∷ ids

-- `shuffle` is the order in which Go ranges over a map of pairs.
module _ {W Bytes : Type 0} (env : Env W) (digest : Digest) (shuffle : Dict ℤ ℤ → Dict ℤ ℤ)
    (github forgejo : ReleaseForge W Bytes) (max_asset_size : ℤ) where
  unfoldable pub release_mapping : ℤ → Release → Release → Exec (Sys W) ReleaseMapping
  release_mapping repository_id g f = do
    now ← time_now env
    pure (record {
      repository_github_id = repository_id;
      github_id = g.id;
      forgejo_id = f.id;
      tag = g.tag;
      last_state_hash = release_hash digest g;
      updated_at = now;
    })

  module _ (repository : RepositoryMapping) where
    unfoldable pub record_skipped :
        String → ReleaseAsset → String → String → Exec (Sys W) (Unit {0})
    record_skipped tag asset from to = do
      now ← time_now env
      add_conflict env (record {
        id = pos 0;
        kind = "release-asset-skipped";
        repository = repository.github_full_name;
        object_key = tag <> "/" <> asset.name;
        github_state = from <> " " <> format_int asset.size <> " bytes";
        forgejo_state = "limit " <> format_int max_asset_size <> " bytes";
        last_known_state = to <> "-copy-skipped";
        created_at = now;
        resolved_at = none;
      })

    -- Whether the asset must be skipped. It is not if the conflict could not be recorded.
    unfoldable pub exceeds_asset_limit : String → ReleaseAsset → String → String → Exec (Sys W) Bool
    exceeds_asset_limit tag asset from to =
        if not (positive max_asset_size) || leb_ℤ asset.size max_asset_size
        then pure false
        else succeeded (record_skipped tag asset from to)

  module _ (repository : RepositoryMapping) (owner name : String) where
    unfoldable pub copy_asset_to_forgejo :
        List String → Release → Release → ReleaseAsset → Exec (Sys W) (Unit {0})
    copy_asset_to_forgejo present g f asset = if contains present asset.name then pure tt else do
      skip ← exceeds_asset_limit repository g.tag asset "github" "forgejo"
      if skip then pure tt else do
        content ←
            wrapped ("download GitHub asset " <> asset.name)
              (external (github.download_release_asset owner name g.id asset.id))
        wrapped ("upload asset " <> asset.name <> " to Forgejo") (
            external (
              forgejo.upload_release_asset repository.forgejo_owner repository.forgejo_name f.id
                asset.name content))

    unfoldable pub copy_asset_to_github :
        List String → Release → Release → ReleaseAsset → Exec (Sys W) (Unit {0})
    copy_asset_to_github present g f asset = if contains present asset.name then pure tt else do
      skip ← exceeds_asset_limit repository f.tag asset "forgejo" "github"
      if skip then pure tt else do
        content ← wrapped ("download Forgejo asset " <> asset.name) (
            external (
              forgejo.download_release_asset repository.forgejo_owner repository.forgejo_name f.id
                asset.id))
        wrapped ("upload asset " <> asset.name <> " to GitHub")
            (external (github.upload_release_asset owner name g.id asset.name content))

    unfoldable pub reconcile_assets : Release → Release → Exec (Sys W) (Unit {0})
    reconcile_assets g f = if not (positive g.id) || not (positive f.id) then pure tt else do
      for_each (copy_asset_to_forgejo (map (λ a. a.name) f.assets) g f) g.assets
      for_each (copy_asset_to_github (map (λ a. a.name) g.assets) g f) f.assets

  module _ (repository : RepositoryMapping) (owner name : String) (dry_run : Bool) where
    unfoldable pub advance : ReleaseMapping → String → Exec (Sys W) (Unit {0})
    advance m hash = do
      now ← time_now env
      upsert_release_mapping env (record m { last_state_hash = hash; updated_at = now })

    unfoldable pub conflict : String → ReleaseMapping → String → String → Exec (Sys W) (Unit {0})
    conflict kind m github_state forgejo_state = do
      now ← time_now env
      add_conflict env (record {
        id = pos 0;
        kind = kind;
        repository = repository.github_full_name;
        object_key = object_key m.github_id m.forgejo_id;
        github_state = github_state;
        forgejo_state = forgejo_state;
        last_known_state = m.last_state_hash;
        created_at = now;
        resolved_at = none;
      })

    unfoldable pub copy_to_forgejo : ReleaseMapping → Release → Release → Exec (Sys W) (Unit {0})
    copy_to_forgejo m g f = do
      updated ← wrapped ("copy GitHub release " <> format_int g.id <> " to Forgejo") (
          external (forgejo.update_release repository.forgejo_owner repository.forgejo_name f.id g))
      advance m (release_hash digest g)
      reconcile_assets repository owner name g updated

    unfoldable pub copy_to_github : ReleaseMapping → Release → Release → Exec (Sys W) (Unit {0})
    copy_to_github m g f = do
      updated ←
          wrapped ("copy Forgejo release " <> format_int f.id <> " to GitHub")
            (external (github.update_release owner name g.id f))
      advance m (release_hash digest f)
      reconcile_assets repository owner name updated f

    -- The `switch` on the two hashes of a mapped pair, with the assets behind it.
    unfoldable pub compare_pair : ReleaseMapping → Release → Release → Exec (Sys W) (Unit {0})
    compare_pair m g f =
        if dry_run
        then pure tt
        else if release_hash digest g == release_hash digest f
        then (do
          if m.last_state_hash == release_hash digest g
              then pure tt
              else advance m (release_hash digest g)
          reconcile_assets repository owner name g f)
        else if release_hash digest f == m.last_state_hash
        then copy_to_forgejo m g f
        else if release_hash digest g == m.last_state_hash
        then copy_to_github m g f
        else do
          conflict "release" m (release_hash digest g) (release_hash digest f)
          reconcile_assets repository owner name g f

    -- The body of the loop over the mappings. A survivor stays pinned to its mapping.
    unfoldable pub reconcile_mapping :
        ReleaseMapping → Option Release → Option Release → Consumed → Exec (Sys W) Consumed
    reconcile_mapping m (some g) (some f) consumed = do
      compare_pair m g f
      pure (record {
        on_github = g.id ∷ consumed.on_github;
        on_forgejo = f.id ∷ consumed.on_forgejo;
      })
    reconcile_mapping m found_github found_forgejo consumed =
        let pinned : Consumed = record {
          on_github = pin found_github consumed.on_github;
          on_forgejo = pin found_forgejo consumed.on_forgejo;
        } in
        if dry_run then pure pinned else do
          conflict "release-missing" m (state_or_missing digest found_github)
              (state_or_missing digest found_forgejo)
          pure pinned

    unfoldable pub write_hash_pair : Release → Release → Exec (Sys W) (Unit {0})
    write_hash_pair g f = do
      m ← release_mapping repository.github_id g f
      upsert_release_mapping env m
      reconcile_assets repository owner name g f

    -- The Forgejo state is the baseline, and the assets wait for the next cycle.
    unfoldable pub write_tag_pair : Release → Release → Exec (Sys W) (Unit {0})
    write_tag_pair g f = do
      m ← release_mapping repository.github_id g f
      upsert_release_mapping env (record m { last_state_hash = release_hash digest f })

    unfoldable pub create_on_forgejo : Release → Exec (Sys W) (Unit {0})
    create_on_forgejo g = if dry_run then pure tt else do
      created ←
          wrapped ("create Forgejo release from GitHub release " <> format_int g.id)
            (external (forgejo.create_release repository.forgejo_owner repository.forgejo_name g))
      wrapped "invalid created Forgejo release" (lift (validate_release created))
      write_hash_pair g created

    unfoldable pub create_on_github : Release → Exec (Sys W) (Unit {0})
    create_on_github f = if dry_run then pure tt else do
      created ←
          wrapped ("create GitHub release from Forgejo release " <> format_int f.id)
            (external (github.create_release owner name f))
      wrapped "invalid created GitHub release" (lift (validate_release created))
      write_hash_pair created f

    unfoldable pub reconcile_lists : List Release → List Release → Exec (Sys W) (Unit {0})
    reconcile_lists github_releases forgejo_releases = do
      mappings ← list_release_mappings env repository.github_id
      mapped ←
          fold
            (λ m c.
              reconcile_mapping m (by_id github_releases m.github_id)
                (by_id forgejo_releases m.forgejo_id) c)
            mappings (record { on_github = []; on_forgejo = [] })
      hashed ←
          fold (record_pair dry_run write_hash_pair github_releases forgejo_releases)
            (shuffle (
              unique_hash_pairs digest (unconsumed github_releases mapped.on_github)
                (unconsumed forgejo_releases mapped.on_forgejo)))
            mapped
      tagged ←
          fold (record_pair dry_run write_tag_pair github_releases forgejo_releases)
            (shuffle (
              tag_pairs (unconsumed github_releases hashed.on_github)
                (unconsumed forgejo_releases hashed.on_forgejo)))
            hashed
      for_each create_on_forgejo (unconsumed github_releases tagged.on_github)
      for_each create_on_github (unconsumed forgejo_releases tagged.on_forgejo)

  unfoldable pub reconcile : RepositoryMapping → Bool → Exec (Sys W) (Unit {0})
  reconcile repository dry_run = do
    (owner, name) ← lift (identity repository)
    github_releases ← wrapped "list GitHub releases" (external (github.list_releases owner name))
    forgejo_releases ←
        wrapped "list Forgejo releases"
          (external (forgejo.list_releases repository.forgejo_owner repository.forgejo_name))
    wrapped "invalid GitHub release response" (lift (validate_releases github_releases))
    wrapped "invalid Forgejo release response" (lift (validate_releases forgejo_releases))
    reconcile_lists repository owner name dry_run github_releases forgejo_releases
