-- ===== src/Issues/DryRun.antt =====
-- A dry run of the issue reconciler.
use forge_sync.Base.{
  String, true, Option, none, some, List, [], ◌∷◌, ◌≡◌, refl, ◌∙◌, ap, string_eq, arith,
}
use mathlib.Core.Path.{fun_ext}
use forge_sync.Base.Dict.{Dict}
use forge_sync.Base.Int.{ℤ}
use forge_sync.Model.{Issue, IssueMapping, RepositoryMapping}
use forge_sync.Result.{ok}
use forge_sync.Effect.{Exec, pure, lift, wrapped, ◌>>=◌, ◌>>◌, fold, for_each}
use forge_sync.Effect.Within.{IsPreorder, Within, within_rules}
use forge_sync.Digest.{Digest}
use forge_sync.Matching.{
  Consumed, consume, identity, external, by_id, unconsumed, record_found, record_pair,
}
use forge_sync.State.Db.{Db, Env, Sys, statement}
use forge_sync.State.Mappings.{list_issue_mappings}
use forge_sync.Issues.{
  IssueForge, validate_issues, unique_hash_pairs, index_title_pairs, compare_pair,
  reconcile_mapping, write_hash_pair, write_index_pair, create_on_forgejo, create_on_github,
  reconcile_lists, reconcile, issue_identified,
}

after_pure :
    {S A B : Type 0} (m : Exec S A) (f : A → Exec S B) (a : A) (r : Exec S B)
    → m ≡ pure a
    → f a ≡ r
    → (m >>= f) ≡ r
unfolding ◌>>=◌
after_pure m f a r e k = ap (λ x. x >>= f) e ∙ k

fold-pure :
    {S A X : Type 0} (body : X → A → Exec S A) (next : X → A → A)
    → ((x : X) (a : A) → body x a ≡ pure (next x a))
    → (xs : List X) (a : A) → (b : A) × (fold body xs a ≡ pure b)
unfolding fold ◌>>=◌
fold-pure body next h [] a = (a, refl)
fold-pure body next h (x ∷ xs) a =
    let (b, e) = fold-pure body next h xs (next x a) in (b, rw (h x a) e)

for_each-pure :
    {S X : Type 0} (body : X → Exec S (Unit {0}))
    → ((x : X) → body x ≡ pure tt)
    → (xs : List X) → for_each body xs ≡ pure tt
unfolding for_each ◌>>=◌
for_each-pure body h [] = refl
for_each-pure body h (x ∷ xs) = rw (h x) (for_each-pure body h xs)

record_pair_dry :
    {S : Type 0} (write : Issue → Issue → Exec S (Unit {0})) (gs fs : List Issue) (p : ℤ × ℤ)
    (c : Consumed)
    → record_pair true write gs fs p c ≡ pure (consume p.0 p.1 c)
unfolding record_pair record_found
record_pair_dry write gs fs (g, f) c = found (by_id gs g) (by_id fs f)
  where
    found : (a b : Option Issue) → record_found true write g f a b c ≡ pure (consume g f c)
    found none b = refl
    found (some a) none = refl
    found (some a) (some b) = refl

module _ {W : Type 0} (env : Env W) where
  -- The two lists are read and validated, and handed on.
  reads_then :
      (String → String → Exec W (List Issue))
      → (String → String → Exec W (List Issue))
      → RepositoryMapping
      → (String → String → List Issue → List Issue → Exec (Sys W) (Unit {0}))
      → Exec (Sys W) (Unit {0})
  reads_then list_github list_forgejo repository next = do
    (owner, name) ← lift (identity repository)
    github_issues ← wrapped "list GitHub issues" (external (list_github owner name))
    forgejo_issues ←
        wrapped "list Forgejo issues"
          (external (list_forgejo repository.forgejo_owner repository.forgejo_name))
    wrapped "invalid GitHub issue response" (lift (validate_issues github_issues))
    wrapped "invalid Forgejo issue response" (lift (validate_issues forgejo_issues))
    next owner name github_issues forgejo_issues

  -- A program that reads both lists and the mappings, and has nothing to write with.
  pub reads :
      (String → String → Exec W (List Issue))
      → (String → String → Exec W (List Issue))
      → RepositoryMapping
      → Exec (Sys W) (Unit {0})
  unfolding reads_then
  reads list_github list_forgejo repository =
      reads_then list_github list_forgejo repository
        (λ owner name gs fs. list_issue_mappings env repository.github_id >>= λ _. pure tt)

  abbrev SameDb : Sys W → Sys W → Type 0
  SameDb s t = t.db ≡ s.db

  same_db : IsPreorder SameDb
  same_db = record { stays = λ s. refl; then_ = λ s t u p q. q ∙ p }

  Within-external : {A : Type 0} (m : Exec W A) → Within SameDb (external m)
  unfolding external
  Within-external m = record { at = λ s. refl }

  Within-query : {A : Type 0} (f : Db → A) → Within SameDb (statement env (λ db. ok (f db, db)))
  unfolding statement
  Within-query f = record { at = λ s. ground arith }

  Within-list_issue_mappings : (id : ℤ) → Within SameDb (list_issue_mappings env id)
  unfolding list_issue_mappings
  Within-list_issue_mappings id = search (within_rules, Within-query)

  reads-db :
      (list_github list_forgejo : String → String → Exec W (List Issue))
      (repository : RepositoryMapping) (s : Sys W)
      → (reads list_github list_forgejo repository s).1.db ≡ s.db
  unfolding reads reads_then
  reads-db list_github list_forgejo repository s =
      let w : Within SameDb (reads list_github list_forgejo repository) =
        search (within_rules, same_db, Within-external, Within-list_issue_mappings) depth 12 in
      w.at s

  module _ (digest : Digest) (shuffle : Dict ℤ ℤ → Dict ℤ ℤ) (github forgejo : IssueForge W)
      (repository : RepositoryMapping) where
    module _ (owner name : String) where
      compare_pair_dry :
          (m : IssueMapping) (g f : Issue)
          → compare_pair env digest shuffle github forgejo repository owner name true m g f
            ≡ pure tt
      unfolding compare_pair
      compare_pair_dry m g f = ground arith

      after_mapping : Option Issue → Option Issue → Consumed → Consumed
      after_mapping (some g) (some f) c = consume g.id f.id c
      after_mapping _ _ c = c

      reconcile_mapping_dry :
          (m : IssueMapping) (g f : Option Issue) (c : Consumed)
          → reconcile_mapping env digest shuffle github forgejo repository owner name true m g f c
            ≡ pure (after_mapping g f c)
      unfolding reconcile_mapping after_mapping ◌>>=◌
      reconcile_mapping_dry m (some g) (some f) c = rw (compare_pair_dry m g f) refl
      reconcile_mapping_dry m (some g) none c = refl
      reconcile_mapping_dry m none f c = refl

      -- The loops of a dry run write nothing.
      loops_dry :
          (gs fs : List Issue) (mappings : List IssueMapping)
          → (fold
                (λ m c.
                  reconcile_mapping env digest shuffle github forgejo repository owner name true m
                    (by_id gs m.github_id)
                    (by_id fs m.forgejo_id)
                    c)
                mappings
                (record { on_github = []; on_forgejo = [] })
              >>= λ mapped.
                  fold
                    (record_pair true
                      (write_hash_pair env digest shuffle github forgejo repository owner name true)
                      gs
                      fs)
                    (shuffle (
                      unique_hash_pairs digest
                        (unconsumed gs mapped.on_github)
                        (unconsumed fs mapped.on_forgejo)))
                    mapped
                  >>= λ hashed.
                      fold
                        (record_pair true
                          (write_index_pair env digest shuffle github forgejo repository owner name
                            true)
                          gs
                          fs)
                        (shuffle (
                          index_title_pairs
                            (unconsumed gs hashed.on_github)
                            (unconsumed fs hashed.on_forgejo)))
                        hashed
                      >>= λ indexed.
                          for_each
                            (create_on_forgejo env digest shuffle github forgejo repository owner
                              name true)
                            (unconsumed gs indexed.on_github)
                          >>= λ _.
                              for_each
                                (create_on_github env digest shuffle github forgejo repository owner
                                  name true)
                                (unconsumed fs indexed.on_forgejo))
            ≡ pure tt
      unfolding create_on_forgejo create_on_github
      loops_dry gs fs mappings =
          let (mapped, e) =
            fold-pure _ _
              (λ m c. reconcile_mapping_dry m (by_id gs m.github_id) (by_id fs m.forgejo_id) c)
              mappings (record { on_github = []; on_forgejo = [] }) in
          let (hashed, e₂) = fold-pure _ _ (record_pair_dry _ gs fs) _ mapped in
          let (indexed, e₃) = fold-pure _ _ (record_pair_dry _ gs fs) _ hashed in
          after_pure _ _ mapped _ e (
            after_pure _ _ hashed _ e₂ (
              after_pure _ _ indexed _ e₃ (
                after_pure _ _ tt _ (for_each-pure _ (λ g. refl) _)
                  (for_each-pure _ (λ f. refl) _))))

      reconcile_lists_dry :
          (gs fs : List Issue)
          → reconcile_lists env digest shuffle github forgejo repository owner name true gs fs
            ≡ (list_issue_mappings env repository.github_id >>= λ _. pure tt)
      unfolding reconcile_lists
      reconcile_lists_dry gs fs =
          ap (λ rest. list_issue_mappings env repository.github_id >>= rest)
            (fun_ext (loops_dry gs fs))

    -- A dry run does what a program does that can only list the issues of both forges and the mappings,
    -- with the same result and the same errors, and it leaves the database as it was.
    pub reconcile_dry_run :
        (s : Sys W)
        → (reconcile env digest shuffle github forgejo repository true s
            ≡ reads github.list_issues forgejo.list_issues repository s)
          × ((reconcile env digest shuffle github forgejo repository true s).1.db ≡ s.db)
    unfolding reconcile reads
    reconcile_dry_run s =
        let e : reconcile env digest shuffle github forgejo repository true s
            ≡ reads github.list_issues forgejo.list_issues repository s =
          ap (λ k. reads_then github.list_issues forgejo.list_issues repository k s)
            (fun_ext (λ owner.
              fun_ext
                (λ name. fun_ext (λ gs. fun_ext (λ fs. reconcile_lists_dry owner name gs fs))))) in
        (e, ap (λ p. p.1.db) e ∙ reads-db github.list_issues forgejo.list_issues repository s)
