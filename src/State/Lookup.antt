-- ===== src/State/Lookup.antt =====
-- What a statement writes is what a later one finds.
use forge_sync.Base.{
  Bool, true, suc, nat_eq, none, some, List, [], ◌∷◌, ◌++◌, ◌≡◌, refl, arith, ◌==◌, if◌then◌else◌,
  any, find, string_eq, Bool-cases, inl, inr,
}
use forge_sync.Base.Int.{pos, int_eq}
use forge_sync.Model.{RepositoryMapping, Conflict}
use forge_sync.Result.{Result, ok}
use forge_sync.Effect.{◌>>=◌}
use forge_sync.State.Db.{Db, Env, Sys, Keyed, same_key, put, upsert, stamp, time_now, statement}
use forge_sync.State.Mappings.{write_row}
use forge_sync.State.Conflicts.{same_conflict, insert_conflict, add_conflict}

module _ {A : Type 0} ⦃k : Keyed A⦄ where
  find-put :
      (o row : A) (rows : List A)
      → find (same_key o) (put same_key row rows)
        ≡ (if same_key o row then some row else find (same_key o) rows)
  find-put o row [] = refl
  find-put o row (x ∷ rows) = ground (arith, find-put o row rows)

  -- If a mapping is written, then afterwards a lookup of its key finds it as it was given, and a lookup of
  -- any other key finds what it found before.
  pub write_row-find :
      (row : A) (rows rows' : List A) (repositories : List RepositoryMapping)
      → write_row row rows repositories ≡ ok rows'
      → (o : A)
      → find (same_key o) rows' ≡ (if same_key o row then some row else find (same_key o) rows)
  unfolding write_row upsert
  write_row-find row rows rows' repositories h o =
      let e : rows' ≡ put same_key row rows = ground arith in rw e (find-put o row rows)

insert_conflict-again :
    (c : Conflict) (db : Db)
    → any (same_conflict c) db.conflicts ≡ true
    → insert_conflict c db ≡ ok (tt, db)
unfolding insert_conflict
insert_conflict-again c db h = ground arith

pub any-append_here :
    {A : Type 0} (p : A → Bool) (xs : List A) (x : A) → p x ≡ true → any p (xs ++ x ∷ []) ≡ true
any-append_here p [] x h = rw h
any-append_here p (y ∷ ys) x h = ground (arith, any-append_here p ys x h)

insert_conflict-recorded :
    (c : Conflict) (db db' : Db)
    → insert_conflict c db ≡ ok (tt, db')
    → any (same_conflict c) db'.conflicts ≡ true
unfolding insert_conflict
insert_conflict-recorded c db db' h = ground (
  arith,
  any-append_here (same_conflict c) db.conflicts
      (record c { id = pos (suc db.conflict_seq); resolved_at = none }) (ground arith),
)

module _ {W : Type 0} (env : Env W) where
  pub statement-ran :
      {A : Type 0} (s : Sys W) (f : Db → Result (A × Db)) (a : A)
      → (statement env f s).0 ≡ ok a
      → f s.db ≡ ok (a, (statement env f s).1.db)
  unfolding statement
  statement-ran s f a h = ground arith

  statement-idle :
      {A : Type 0} (s : Sys W) (f : Db → Result (A × Db)) (a : A)
      → f s.db ≡ ok (a, s.db)
      → (statement env f s).1.db ≡ s.db
  unfolding statement
  statement-idle s f a h = ground arith

  add_conflict_once :
      (c : Conflict) (s : Sys W)
      → ((add_conflict env c s).0 ≡ ok tt
          → any (same_conflict c) (add_conflict env c s).1.db.conflicts ≡ true)
        × (any (same_conflict c) s.db.conflicts ≡ true → (add_conflict env c s).1.db ≡ s.db)
  unfolding add_conflict stamp time_now ◌>>=◌
  add_conflict_once c s = elim (Bool-cases (c.created_at == 0)) [
    | inl z ↦ (
      λ h. rw z (
          insert_conflict-recorded _ _ _ (
            statement-ran (record s { world = (env.now s.world).1 })
              (insert_conflict (record c { created_at = (env.now s.world).0 })) tt (ground arith))),
      λ h. rw z (
          statement-idle (record s { world = (env.now s.world).1 }) _ tt
            (insert_conflict-again (record c { created_at = (env.now s.world).0 }) s.db h)),
    )
    | inr z ↦ (
      λ h.
          rw z (
            insert_conflict-recorded _ _ _ (statement-ran s (insert_conflict c) tt (ground arith))),
      λ h. rw z (statement-idle s _ tt (insert_conflict-again c s.db h)),
    )
  ]

  -- A conflict whose recording succeeded is in the table.
  pub add_conflict_recorded :
      (c : Conflict) (s : Sys W)
      → (add_conflict env c s).0 ≡ ok tt
      → any (same_conflict c) (add_conflict env c s).1.db.conflicts ≡ true
  add_conflict_recorded c s = (add_conflict_once c s).0

  pub add_conflict_idle :
      (c : Conflict) (s : Sys W)
      → any (same_conflict c) s.db.conflicts ≡ true
      → (add_conflict env c s).1.db ≡ s.db
  add_conflict_idle c s = (add_conflict_once c s).1
