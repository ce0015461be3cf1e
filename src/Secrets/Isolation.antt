-- ===== src/Secrets/Isolation.antt =====
-- Which secrets a repository is given.
use forge_sync.Base.{
  String, Bool, List, [], ◌∷◌, ◌++◌, ◌≡◌, refl, sym, ap, ◌∙◌, arith, ◌==◌, string_eq, filter,
  if◌then◌else◌, sort_by,
}
use forge_sync.Base.Dict.{lookup, insert, lookup-insert}
use forge_sync.Model.{ActionSecret, RepositoryMapping}
use forge_sync.Gitrefs.Policy.{string_le}
use forge_sync.Secrets.{SecretForge, ByRepo, secrets_of, group, sorted, sort_each, new, reconcile}

-- The secrets of a repository, in the order of the configuration.
abbrev own : String → List ActionSecret → List ActionSecret
own repository = filter (λ s. s.repository == repository)

append_nil : (xs : List ActionSecret) → xs ++ [] ≡ xs
append_nil [] = refl
append_nil (x ∷ xs) = ap (λ zs. x ∷ zs) (append_nil xs)

append_assoc :
    (xs : List ActionSecret) (x : ActionSecret) (ys : List ActionSecret)
    → (xs ++ x ∷ []) ++ ys ≡ xs ++ x ∷ ys
append_assoc [] x ys = refl
append_assoc (y ∷ xs) x ys = ap (λ zs. y ∷ zs) (append_assoc xs x ys)

secrets_of-insert :
    (r k : String) (v : List ActionSecret) (d : ByRepo)
    → secrets_of r (insert k v d) ≡ (if k == r then v else secrets_of r d)
unfolding secrets_of
secrets_of-insert r k v d = ground (arith, lookup-insert r k v d)

secrets_of-group :
    (r : String) (configured : List ActionSecret) (d : ByRepo)
    → secrets_of r (group configured d) ≡ secrets_of r d ++ own r configured
unfolding group
secrets_of-group r [] d = sym (append_nil (secrets_of r d))
secrets_of-group r (s ∷ rest) d =
    let next = secrets_of s.repository d ++ s ∷ [] in
    let ih = secrets_of-group r rest (insert s.repository next d) in
    let at = secrets_of-insert r s.repository next d in
    let move = append_assoc (secrets_of r d) s (own r rest) in ground (arith, ih, at, move)

secrets_of-sort_each :
    (r : String) (d : ByRepo) → secrets_of r (sort_each d) ≡ sorted (secrets_of r d)
unfolding secrets_of sort_each lookup sort_by
secrets_of-sort_each r [] = refl
secrets_of-sort_each r ((k, v) ∷ d) = ground (arith, secrets_of-sort_each r d)

-- The map that New builds in its two loops holds, for every repository, the secrets that are configured for it
-- and no other, sorted by their names.
pub secrets_of-new :
    (repository : String) (configured : List ActionSecret)
    → secrets_of repository (new configured)
      ≡ sort_by
          (λ a b. string_le a.name b.name)
          (filter (λ s. s.repository == repository) configured)
unfolding new secrets_of lookup
secrets_of-new repository configured =
    secrets_of-sort_each repository (group configured [])
    ∙ ap sorted (secrets_of-group repository configured [])

module _ {W : Type 0} (forgejo : SecretForge W) (mapping : RepositoryMapping) (dry_run : Bool) where
  -- What a repository is given depends only on the secrets that are configured for it: two configurations that
  -- differ in the secrets of other repositories, or in where these stand between its own, lead to the
  -- same calls in the same order and to the same result.
  pub secrets_isolated :
      (a b : List ActionSecret)
      → filter (λ s. s.repository == mapping.github_full_name) a
        ≡ filter (λ s. s.repository == mapping.github_full_name) b
      → reconcile forgejo (new a) mapping dry_run ≡ reconcile forgejo (new b) mapping dry_run
  unfolding reconcile
  secrets_isolated a b h =
      rw (secrets_of-new mapping.github_full_name a, secrets_of-new mapping.github_full_name b, h)
        refl
