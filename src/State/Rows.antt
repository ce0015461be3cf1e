-- ===== src/State/Rows.antt =====
-- What a reconciliation leaves untouched of the tables that only the webhook server and the API rewrite.
use forge_sync.Base.{
  suc, Bool, true, none, List, [], ◌∷◌, ◌++◌, ◌≡◌, refl, ◌∙◌, arith, any, Bool-cases, inl, inr,
  string_eq,
}
use forge_sync.Base.Int.{pos}
use forge_sync.Model.{RepositoryMapping, Conflict}
use forge_sync.Result.{>>=-eq-ok}
use forge_sync.State.Db.{Db, upsert}
use forge_sync.State.Mappings.{
  issue_keyed, pull_request_keyed, comment_keyed, release_keyed, same_repository, same_path,
  repository_columns, valid_visibility, write_row, write_repository, write_issue,
  write_pull_request, write_comment, write_release,
}
use forge_sync.State.Conflicts.{same_conflict, insert_conflict}
use forge_sync.State.Runs.{insert_run, update_run}
use forge_sync.State.Rules.{StoreRules, Writes}

-- The deliveries are the same, and every row of the conflicts is still there as it was.
pub record KeepsRows (s t : Db) : Type 0 where
  pub deliveries : t.deliveries ≡ s.deliveries
  pub conflicts : (p : Conflict → Bool) → any p s.conflicts ≡ true → any p t.conflicts ≡ true

KeepsRows-refl : (s : Db) → KeepsRows s s
KeepsRows-refl s = record { deliveries = refl; conflicts = λ p h. h }

KeepsRows-trans : (s t u : Db) → KeepsRows s t → KeepsRows t u → KeepsRows s u
KeepsRows-trans s t u f g = record {
  deliveries = g.deliveries ∙ f.deliveries;
  conflicts = λ p h. g.conflicts p (f.conflicts p h);
}

untouched : (s t : Db) → t.deliveries ≡ s.deliveries → t.conflicts ≡ s.conflicts → KeepsRows s t
untouched s t d c = record { deliveries = d; conflicts = λ p h. rw c h }

any-append_old :
    (p : Conflict → Bool) (xs ys : List Conflict) → any p xs ≡ true → any p (xs ++ ys) ≡ true
any-append_old p [] ys h = cc
any-append_old p (x ∷ xs) ys h = ground (arith, any-append_old p xs ys)

insert_conflict-KeepsRows : (c : Conflict) → Writes KeepsRows (insert_conflict c)
unfolding insert_conflict
insert_conflict-KeepsRows c db a db' h = elim (Bool-cases (any (same_conflict c) db.conflicts)) [
  | inl b ↦ untouched db db' (ground arith) (ground arith)
  | inr b ↦ record {
    deliveries = ground arith;
    conflicts = λ p k. ground (
      arith,
      any-append_old p db.conflicts
          ((record c { id = pos (suc db.conflict_seq); resolved_at = none }) ∷ []) k,
    );
  }
]

write_repository-KeepsRows : (m : RepositoryMapping) → Writes KeepsRows (write_repository m)
unfolding write_repository
write_repository-KeepsRows m db a db' h = elim (Bool-cases (valid_visibility m.visibility)) [
  | inl c ↦
      let (rows, e, g) =
        >>=-eq-ok (upsert repository_columns same_repository same_path m db.repositories) _
          (rw c at h) in
      untouched db db' (cc g) (cc g)
  | inr c ↦ absurd (ground arith)
]

-- Every statement of a reconciliation keeps those rows.
pub KeepsRows-rules : StoreRules KeepsRows
unfolding write_issue write_pull_request write_comment write_release insert_run update_run
KeepsRows-rules = record {
  stays = KeepsRows-refl;
  chain = KeepsRows-trans;
  repository = write_repository-KeepsRows;
  issue = λ m db a db' h.
      let (rows, e, g) = >>=-eq-ok (write_row m db.issues db.repositories) _ h in
      untouched db db' (cc g) (cc g);
  pull_request = λ m db a db' h.
      let (rows, e, g) = >>=-eq-ok (write_row m db.pull_requests db.repositories) _ h in
      untouched db db' (cc g) (cc g);
  comment = λ m db a db' h.
      let (rows, e, g) = >>=-eq-ok (write_row m db.comments db.repositories) _ h in
      untouched db db' (cc g) (cc g);
  release = λ m db a db' h.
      let (rows, e, g) = >>=-eq-ok (write_row m db.releases db.repositories) _ h in
      untouched db db' (cc g) (cc g);
  conflict = insert_conflict-KeepsRows;
  run = λ scope dry t db a db' h. untouched db db' (cc h) (cc h);
  completed = λ id t summary e db a db' h. untouched db db' (cc h) (cc h);
}
