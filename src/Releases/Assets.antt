-- ===== src/Releases/Assets.antt =====
-- The size limit on the release assets that are copied.
use forge_sync.Base.{
  String, true, false, List, ◌≡◌, refl, sym, ◌∙◌, if◌then◌else◌, contains, Bool-cases, inl, inr,
  string_eq,
}
use forge_sync.Base.Dict.{Dict}
use forge_sync.Base.Int.{ℤ, positive, leb_ℤ}
use forge_sync.Model.{Release, ReleaseAsset, RepositoryMapping}
use forge_sync.Result.{Result, ok}
use forge_sync.Effect.{◌>>=◌, succeeded-ok}
use forge_sync.Digest.{Digest}
use forge_sync.State.Db.{Env, Sys}
use forge_sync.Releases.{
  ReleaseForge, record_skipped, exceeds_asset_limit, copy_asset_to_forgejo, copy_asset_to_github,
}

module _ {W Bytes : Type 0} (env : Env W) (digest : Digest) (shuffle : Dict ℤ ℤ → Dict ℤ ℤ)
    (github forgejo : ReleaseForge W Bytes) (limit : ℤ) (repository : RepositoryMapping)
    (owner name : String) (present : List String) (g f : Release) (asset : ReleaseAsset) (s : Sys W)
    (large : positive limit ≡ true) (over : leb_ℤ asset.size limit ≡ false) where
  abbrev noted : String → String → String → Result (Unit {0}) × Sys W
  noted tag from to =
      record_skipped env digest shuffle github forgejo limit repository tag asset from to s

  skips :
      (tag from to : String)
      → (noted tag from to).0 ≡ ok tt
      → exceeds_asset_limit env digest shuffle github forgejo limit repository tag asset from to s
        ≡ (ok true, (noted tag from to).1)
  unfolding exceeds_asset_limit
  skips tag from to r =
      rw (large, over)
        (succeeded-ok
          (record_skipped env digest shuffle github forgejo limit repository tag asset from to) s tt
          r)

  skips_to_forgejo :
      (noted g.tag "github" "forgejo").0 ≡ ok tt
      → copy_asset_to_forgejo env digest shuffle github forgejo limit repository owner name present
          g f asset s
        ≡ (ok tt, if contains present asset.name then s else (noted g.tag "github" "forgejo").1)
  unfolding copy_asset_to_forgejo ◌>>=◌
  skips_to_forgejo r = elim (Bool-cases (contains present asset.name)) [
    | inl c ↦ rw c refl
    | inr c ↦ rw (c, skips g.tag "github" "forgejo" r) refl
  ]

  skips_to_github :
      (noted f.tag "forgejo" "github").0 ≡ ok tt
      → copy_asset_to_github env digest shuffle github forgejo limit repository owner name present g
          f asset s
        ≡ (ok tt, if contains present asset.name then s else (noted f.tag "forgejo" "github").1)
  unfolding copy_asset_to_github ◌>>=◌
  skips_to_github r = elim (Bool-cases (contains present asset.name)) [
    | inl c ↦ rw c refl
    | inr c ↦ rw (c, skips f.tag "forgejo" "github" r) refl
  ]

module _ {W Bytes : Type 0} (env : Env W) (digest : Digest) (shuffle : Dict ℤ ℤ → Dict ℤ ℤ)
    (github forgejo : ReleaseForge W Bytes) (limit : ℤ) (repository : RepositoryMapping)
    (owner name : String) (present : List String) (g f : Release) (asset : ReleaseAsset)
    (s : Sys W) where
  oversized_asset_stays :
      (other other' : ReleaseForge W Bytes)
      → positive limit ≡ true
      → leb_ℤ asset.size limit ≡ false
      → ((record_skipped env digest shuffle github forgejo limit repository g.tag asset "github"
              "forgejo" s).0
            ≡ ok tt
          → copy_asset_to_forgejo env digest shuffle github forgejo limit repository owner name
              present g f asset s
            ≡ copy_asset_to_forgejo env digest shuffle other other' limit repository owner name
                present g f asset s)
        × ((record_skipped env digest shuffle github forgejo limit repository f.tag asset "forgejo"
                "github" s).0
              ≡ ok tt
            → copy_asset_to_github env digest shuffle github forgejo limit repository owner name
                present g f asset s
              ≡ copy_asset_to_github env digest shuffle other other' limit repository owner name
                  present g f asset s)
  unfolding record_skipped
  oversized_asset_stays other other' p b = (
    λ r.
        skips_to_forgejo env digest shuffle github forgejo limit repository owner name present g f
          asset s p b r
        ∙ sym (
            skips_to_forgejo env digest shuffle other other' limit repository owner name present g f
              asset s p b r),
    λ r.
        skips_to_github env digest shuffle github forgejo limit repository owner name present g f
          asset s p b r
        ∙ sym (
            skips_to_github env digest shuffle other other' limit repository owner name present g f
              asset s p b r),
  )

  -- An asset of a GitHub release that is above a positive limit is neither downloaded nor uploaded to
  -- Forgejo, if the conflict about it can be recorded: any other clients of the forges give the same result.
  pub oversized_asset_stays_on_github :
      (other other' : ReleaseForge W Bytes)
      → positive limit ≡ true
      → leb_ℤ asset.size limit ≡ false
      → (record_skipped env digest shuffle github forgejo limit repository g.tag asset "github"
          "forgejo" s).0
        ≡ ok tt
      → copy_asset_to_forgejo env digest shuffle github forgejo limit repository owner name present
          g f asset s
        ≡ copy_asset_to_forgejo env digest shuffle other other' limit repository owner name present
            g f asset s
  oversized_asset_stays_on_github other other' p b r = (oversized_asset_stays other other' p b).0 r

  -- An asset of a Forgejo release that is above a positive limit is neither downloaded nor uploaded to
  -- GitHub, if the conflict about it can be recorded: any other clients of the forges give the same result.
  pub oversized_asset_stays_on_forgejo :
      (other other' : ReleaseForge W Bytes)
      → positive limit ≡ true
      → leb_ℤ asset.size limit ≡ false
      → (record_skipped env digest shuffle github forgejo limit repository f.tag asset "forgejo"
          "github" s).0
        ≡ ok tt
      → copy_asset_to_github env digest shuffle github forgejo limit repository owner name present g
          f asset s
        ≡ copy_asset_to_github env digest shuffle other other' limit repository owner name present g
            f asset s
  oversized_asset_stays_on_forgejo other other' p b r = (oversized_asset_stays other other' p b).1 r
