-- ===== src/State/Extends.antt =====
-- What the store never drops: a mapped GitHub id stays mapped, a conflict stays recorded, and a
-- delivery stays claimed.
use forge_sync.Base.{
  suc, String, Bool, true, not, ◌&&◌, Option, none, List, [], ◌∷◌, ◌++◌, ◌≡◌, refl, ◌∙◌, arith,
  ◌==◌, any, string_eq, Bool-cases, inl, inr,
}
use forge_sync.Base.Int.{ℤ, int_eq}
use forge_sync.Model.{
  Time, RepositoryMapping, IssueMapping, PullRequestMapping, CommentMapping, ReleaseMapping,
  Conflict,
}
use forge_sync.Result.{Error, ok, >>=-eq-ok}
use forge_sync.State.Db.{Db, Keyed, Delivery, same_key, same_forgejo, forgejo_columns, put, upsert}
use forge_sync.State.Mappings.{
  issue_keyed, pull_request_keyed, comment_keyed, release_keyed, same_repository, same_path,
  repository_columns, has_repository, valid_visibility, write_row, write_repository, write_issue,
  write_pull_request, write_comment, write_release,
}
use forge_sync.State.Webhooks.{is_delivery, insert_delivery, set_processed, update_delivery}
use forge_sync.State.Conflicts.{
  same_conflict, unresolved, insert_conflict, set_resolved, update_resolved,
}
use forge_sync.State.Runs.{insert_run, update_run}
use forge_sync.State.Rules.{StoreRules, Writes}

-- A row has the GitHub id, in the repository.
abbrev pub is_mapped : {A : Type 0} ⦃k : Keyed A⦄ → ℤ → ℤ → List A → Bool
is_mapped ⦃k⦄ repository id = any (λ r. k.repository_of r == repository && k.github_of r == id)

pub record Extends (s t : Db) : Type 0 where
  pub repositories :
      (id : ℤ) → has_repository id s.repositories ≡ true → has_repository id t.repositories ≡ true
  pub issues : (r id : ℤ) → is_mapped r id s.issues ≡ true → is_mapped r id t.issues ≡ true
  pub pull_requests :
      (r id : ℤ) → is_mapped r id s.pull_requests ≡ true → is_mapped r id t.pull_requests ≡ true
  pub comments : (r id : ℤ) → is_mapped r id s.comments ≡ true → is_mapped r id t.comments ≡ true
  pub releases : (r id : ℤ) → is_mapped r id s.releases ≡ true → is_mapped r id t.releases ≡ true
  pub deliveries :
      (forge id : String)
      → any (is_delivery forge id) s.deliveries ≡ true
      → any (is_delivery forge id) t.deliveries ≡ true
  pub conflicts :
      (c : Conflict)
      → any (same_conflict c) s.conflicts ≡ true
      → any (same_conflict c) t.conflicts ≡ true

pub Extends-refl : (s : Db) → Extends s s
Extends-refl s = record {
  repositories = λ id h. h;
  issues = λ r id h. h;
  pull_requests = λ r id h. h;
  comments = λ r id h. h;
  releases = λ r id h. h;
  deliveries = λ f id h. h;
  conflicts = λ c h. h;
}

pub Extends-trans : (s t u : Db) → Extends s t → Extends t u → Extends s u
Extends-trans s t u f g = record {
  repositories = λ id h. g.repositories id (f.repositories id h);
  issues = λ r id h. g.issues r id (f.issues r id h);
  pull_requests = λ r id h. g.pull_requests r id (f.pull_requests r id h);
  comments = λ r id h. g.comments r id (f.comments r id h);
  releases = λ r id h. g.releases r id (f.releases r id h);
  deliveries = λ w id h. g.deliveries w id (f.deliveries w id h);
  conflicts = λ c h. g.conflicts c (f.conflicts c h);
}

module _ {A : Type 0} where
  -- A test that the new row passes wherever the row that it replaces did.
  any-put_stays :
      (same : A → A → Bool) (p : A → Bool) (row : A) (rows : List A)
      → ((x : A) → same row x ≡ true → p x ≡ p row)
      → any p rows ≡ true
      → any p (put same row rows) ≡ true
  any-put_stays same p row [] h a = cc
  any-put_stays same p row (x ∷ xs) h a = ground (arith, any-put_stays same p row xs h, h x)

  any-append : (p : A → Bool) (xs ys : List A) → any p xs ≡ true → any p (xs ++ ys) ≡ true
  any-append p [] ys h = cc
  any-append p (x ∷ xs) ys h = ground (arith, any-append p xs ys)

  upsert-eq-put :
      (columns : String) (same clash : A → A → Bool) (row : A) (rows rows' : List A)
      → upsert columns same clash row rows ≡ ok rows'
      → rows' ≡ put same row rows
  unfolding upsert
  upsert-eq-put columns same clash row rows rows' h =
      elim (Bool-cases (any (λ x. clash row x && not (same row x)) rows)) [
        | inl b ↦ ground arith
        | inr b ↦ ground arith
      ]

module _ {A : Type 0} ⦃k : Keyed A⦄ where
  write_row-is_mapped :
      (r id : ℤ) (row : A) (rows rows' : List A) (known : List RepositoryMapping)
      → write_row row rows known ≡ ok rows'
      → is_mapped r id rows ≡ true
      → is_mapped r id rows' ≡ true
  unfolding write_row
  write_row-is_mapped r id row rows rows' known h m =
      let (x, e, g) = >>=-eq-ok (upsert (forgejo_columns k) same_key same_forgejo row rows) _ h in
      let p : x ≡ put same_key row rows =
        upsert-eq-put (forgejo_columns k) same_key same_forgejo row rows x e in
      let q : rows' ≡ x = ground arith in
      rw (q, p)
        (any-put_stays same_key (λ r'. k.repository_of r' == r && k.github_of r' == id) row rows
          (λ y s. ground arith) m)

write_issue-Extends : (m : IssueMapping) → Writes Extends (write_issue m)
unfolding write_issue
write_issue-Extends m db a db' h =
    let (rows, e, g) = >>=-eq-ok (write_row m db.issues db.repositories) _ h in
    let q : db' ≡ record db { issues = rows } = cc g in
    rw q (record {
      repositories = (Extends-refl db).repositories;
      issues = λ r id. write_row-is_mapped r id m db.issues rows db.repositories e;
      pull_requests = (Extends-refl db).pull_requests;
      comments = (Extends-refl db).comments;
      releases = (Extends-refl db).releases;
      deliveries = (Extends-refl db).deliveries;
      conflicts = (Extends-refl db).conflicts;
    })

write_pull_request-Extends : (m : PullRequestMapping) → Writes Extends (write_pull_request m)
unfolding write_pull_request
write_pull_request-Extends m db a db' h =
    let (rows, e, g) = >>=-eq-ok (write_row m db.pull_requests db.repositories) _ h in
    let q : db' ≡ record db { pull_requests = rows } = cc g in
    rw q (record {
      repositories = (Extends-refl db).repositories;
      issues = (Extends-refl db).issues;
      pull_requests = λ r id. write_row-is_mapped r id m db.pull_requests rows db.repositories e;
      comments = (Extends-refl db).comments;
      releases = (Extends-refl db).releases;
      deliveries = (Extends-refl db).deliveries;
      conflicts = (Extends-refl db).conflicts;
    })

write_comment-Extends : (m : CommentMapping) → Writes Extends (write_comment m)
unfolding write_comment
write_comment-Extends m db a db' h =
    let (rows, e, g) = >>=-eq-ok (write_row m db.comments db.repositories) _ h in
    let q : db' ≡ record db { comments = rows } = cc g in
    rw q (record {
      repositories = (Extends-refl db).repositories;
      issues = (Extends-refl db).issues;
      pull_requests = (Extends-refl db).pull_requests;
      comments = λ r id. write_row-is_mapped r id m db.comments rows db.repositories e;
      releases = (Extends-refl db).releases;
      deliveries = (Extends-refl db).deliveries;
      conflicts = (Extends-refl db).conflicts;
    })

write_release-Extends : (m : ReleaseMapping) → Writes Extends (write_release m)
unfolding write_release
write_release-Extends m db a db' h =
    let (rows, e, g) = >>=-eq-ok (write_row m db.releases db.repositories) _ h in
    let q : db' ≡ record db { releases = rows } = cc g in
    rw q (record {
      repositories = (Extends-refl db).repositories;
      issues = (Extends-refl db).issues;
      pull_requests = (Extends-refl db).pull_requests;
      comments = (Extends-refl db).comments;
      releases = λ r id. write_row-is_mapped r id m db.releases rows db.repositories e;
      deliveries = (Extends-refl db).deliveries;
      conflicts = (Extends-refl db).conflicts;
    })

write_repository-Extends : (m : RepositoryMapping) → Writes Extends (write_repository m)
unfolding write_repository
write_repository-Extends m db a db' h = elim (Bool-cases (valid_visibility m.visibility)) [
  | inl c ↦
      let (rows, e, g) =
        >>=-eq-ok (upsert repository_columns same_repository same_path m db.repositories) _
          (rw c at h) in
      let p : rows ≡ put same_repository m db.repositories =
        upsert-eq-put repository_columns same_repository same_path m db.repositories rows e in
      let q : db' ≡ record db { repositories = rows } = cc g in
      rw q (record {
        repositories = λ id k. rw p (
            any-put_stays same_repository (λ r. r.github_id == id) m db.repositories
              (λ x s. ground arith) k);
        issues = (Extends-refl db).issues;
        pull_requests = (Extends-refl db).pull_requests;
        comments = (Extends-refl db).comments;
        releases = (Extends-refl db).releases;
        deliveries = (Extends-refl db).deliveries;
        conflicts = (Extends-refl db).conflicts;
      })
  | inr c ↦ absurd (ground arith)
]

-- A statement that changes deliveries and conflicts only, and drops none of them.
carry_over :
    (db db' : Db)
    → (db'.repositories ≡ db.repositories)
      × (db'.issues ≡ db.issues)
      × (db'.pull_requests ≡ db.pull_requests)
      × (db'.comments ≡ db.comments)
      × (db'.releases ≡ db.releases)
    → ((forge id : String)
        → any (is_delivery forge id) db.deliveries ≡ true
        → any (is_delivery forge id) db'.deliveries ≡ true)
    → ((c : Conflict)
        → any (same_conflict c) db.conflicts ≡ true
        → any (same_conflict c) db'.conflicts ≡ true)
    → Extends db db'
carry_over db db' e d c = record {
  repositories = rw (e.0) (λ id h. h);
  issues = rw (e.1) (λ r id h. h);
  pull_requests = rw (e.2) (λ r id h. h);
  comments = rw (e.3) (λ r id h. h);
  releases = rw (e.4) (λ r id h. h);
  deliveries = d;
  conflicts = c;
}

insert_conflict-Extends : (c : Conflict) → Writes Extends (insert_conflict c)
unfolding insert_conflict
insert_conflict-Extends c db a db' h =
    carry_over db db' (ground arith) (λ forge id k. ground arith)
      (λ o k. ground (
        arith,
        any-append (same_conflict o) db.conflicts
            ((record c { id = ℤ.pos (suc db.conflict_seq); resolved_at = none }) ∷ []) k,
      ))

pub insert_delivery-Extends :
    (forge id event hash : String) (t : Time)
    → Writes Extends (insert_delivery forge id event hash t)
unfolding insert_delivery
insert_delivery-Extends forge id event hash t db a db' h =
    carry_over db db' (ground arith)
      (λ f i k. ground (
        arith,
        any-append (is_delivery f i) db.deliveries
            ((record {
              forge = forge;
              delivery_id = id;
              event_type = event;
              payload_hash = hash;
              received_at = t;
              processed_at = none;
              error = none;
            })
              ∷ [])
            k,
      ))
      (λ c k. ground arith)

set_resolved-same_conflict :
    (c : Conflict) (id : ℤ) (t : Time) (rows : List Conflict)
    → any (same_conflict c) (set_resolved id t rows) ≡ any (same_conflict c) rows
unfolding set_resolved
set_resolved-same_conflict c id t [] = refl
set_resolved-same_conflict c id t (x ∷ rows) = elim (Bool-cases (x.id == id && unresolved x)) [
  | inl b ↦ rw (b, set_resolved-same_conflict c id t rows) refl
  | inr b ↦ rw (b, set_resolved-same_conflict c id t rows) refl
]

set_processed-is_delivery :
    (f i forge id : String) (t : Time) (e : Option Error) (rows : List Delivery)
    → any (is_delivery f i) (set_processed forge id t e rows) ≡ any (is_delivery f i) rows
unfolding set_processed
set_processed-is_delivery f i forge id t e [] = refl
set_processed-is_delivery f i forge id t e (x ∷ rows) = elim (Bool-cases (is_delivery forge id x)) [
  | inl b ↦ rw (b, set_processed-is_delivery f i forge id t e rows) refl
  | inr b ↦ rw (b, set_processed-is_delivery f i forge id t e rows) refl
]

pub update_resolved-Extends : (id : ℤ) (t : Time) → Writes Extends (update_resolved id t)
unfolding update_resolved
update_resolved-Extends id t db a db' h =
    let q : db' ≡ record db { conflicts = set_resolved id t db.conflicts } = cc h in
    carry_over db db' (rw q (refl, refl, refl, refl, refl)) (rw q (λ f i k. k))
      (rw q (λ c k. set_resolved-same_conflict c id t db.conflicts ∙ k))

pub update_delivery-Extends :
    (forge id : String) (t : Time) (e : Option Error)
    → Writes Extends (update_delivery forge id t e)
unfolding update_delivery
update_delivery-Extends forge id t e db a db' h =
    let q : db' ≡ record db { deliveries = set_processed forge id t e db.deliveries } = cc h in
    carry_over db db' (rw q (refl, refl, refl, refl, refl))
      (rw q (λ f i k. set_processed-is_delivery f i forge id t e db.deliveries ∙ k))
      (rw q (λ c k. k))

insert_run-Extends :
    (scope : String) (dry : Bool) (t : Time) → Writes Extends (insert_run scope dry t)
unfolding insert_run
insert_run-Extends scope dry t db a db' h =
    carry_over db db' (cc h, cc h, cc h, cc h, cc h)
      (λ f i k. let q : db.deliveries ≡ db'.deliveries = cc h in rw (← q) k)
      (λ c k. let q : db.conflicts ≡ db'.conflicts = cc h in rw (← q) k)

update_run-Extends :
    (id : ℤ) (t : Time) (summary : String) (e : Option Error)
    → Writes Extends (update_run id t summary e)
unfolding update_run
update_run-Extends id t summary e db a db' h =
    carry_over db db' (cc h, cc h, cc h, cc h, cc h)
      (λ f i k. let q : db.deliveries ≡ db'.deliveries = cc h in rw (← q) k)
      (λ c k. let q : db.conflicts ≡ db'.conflicts = cc h in rw (← q) k)

-- Every statement of a reconciliation keeps what was recorded.
pub Extends-rules : StoreRules Extends
Extends-rules = record {
  stays = Extends-refl;
  chain = Extends-trans;
  repository = write_repository-Extends;
  issue = write_issue-Extends;
  pull_request = write_pull_request-Extends;
  comment = write_comment-Extends;
  release = write_release-Extends;
  conflict = insert_conflict-Extends;
  run = insert_run-Extends;
  completed = update_run-Extends;
}
