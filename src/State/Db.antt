-- ===== src/State/Db.antt =====
-- The SQLite database of the store: its tables with the constraints of migrations/001_init.sql,
-- 002_releases.sql and 003_repository_size.sql, and what a statement on them needs of the outside.
use forge_sync.Base.{
  ℕ, String, ◌<>◌, Bool, not, ◌&&◌, Option, none, some, List, [], ◌∷◌, ◌==◌, if◌then◌else◌, any,
  string_eq, nat_eq,
}
use forge_sync.Base.Int.{ℤ, int_eq}
use forge_sync.Model.{
  Time, RepositoryMapping, IssueMapping, PullRequestMapping, CommentMapping, ReleaseMapping,
  Conflict,
}
use forge_sync.Result.{Error, Result, ok, err}
use forge_sync.Effect.{Exec}

-- A row of `webhook_deliveries`.
pub record Delivery : Type 0 where
  pub forge : String
  pub delivery_id : String
  pub event_type : String
  pub payload_hash : String
  pub received_at : Time
  pub processed_at : Option Time
  pub error : Option String

-- A row of `reconciliation_runs`.
pub record Run : Type 0 where
  pub id : ℤ
  pub scope : String
  pub dry_run : Bool
  pub started_at : Time
  pub completed_at : Option Time
  pub status : String
  pub summary_json : Option String
  pub error : Option String

-- `conflict_seq` and `run_seq` are the largest AUTOINCREMENT ids given so far.
pub record Db : Type 0 where
  pub repositories : List RepositoryMapping
  pub issues : List IssueMapping
  pub pull_requests : List PullRequestMapping
  pub comments : List CommentMapping
  pub releases : List ReleaseMapping
  pub deliveries : List Delivery
  pub conflicts : List Conflict
  pub conflict_seq : ℕ
  pub runs : List Run
  pub run_seq : ℕ

-- What the store needs of the outside, `W`. `sqlite` says whether the next statement fails for a
-- reason other than a constraint (a cancelled context, a busy or a full disk). `now` reads the clock,
-- and `format_time` is the text of a time as it is stored, by which `ORDER BY` compares.
pub record Env (W : Type 0) : Type 0 where
  pub sqlite : W → Option Error × W
  pub now : W → Time × W
  pub format_time : Time → String

pub record Sys (W : Type 0) : Type 0 where
  pub db : Db
  pub world : W

module _ {W : Type 0} (env : Env W) where
  -- `time.Now()`
  unfoldable pub time_now : Exec (Sys W) Time
  time_now s = let (t, w) = env.now s.world in (ok t, record s { world = w })

  -- `if t.IsZero() { t = time.Now() }`
  unfoldable pub stamp : Time → Exec (Sys W) Time
  unfolding time_now
  stamp t s = if t == 0 then time_now s else (ok t, s)

  -- A statement of one transaction: it fails as a whole, and changes nothing then.
  unfoldable pub statement : {A : Type 0} → (Db → Result (A × Db)) → Exec (Sys W) A
  statement f s =
      let (fault, w) = env.sqlite s.world in
      elim fault [
        | some e ↦ (err e, record s { world = w })
        | none ↦ elim (f s.db) [
          | err e ↦ (err e, record s { world = w })
          | ok (a, db) ↦ (ok a, record { db = db; world = w })
        ]
      ]

  -- A `SELECT`.
  abbrev pub query : {A : Type 0} → (Db → A) → Exec (Sys W) A
  query f = statement (λ db. ok (f db, db))

-- The four mapping tables share PRIMARY KEY (repository_github_id, github_id) and
-- UNIQUE (repository_github_id, forgejo_id).
pub record Keyed (A : Type 0) : Type 0 where
  pub table : String
  pub repository_of : A → ℤ
  pub github_of : A → ℤ
  pub forgejo_of : A → ℤ

module _ {A : Type 0} ⦃k : Keyed A⦄ where
  abbrev pub same_key : A → A → Bool
  same_key a b = k.repository_of a == k.repository_of b && k.github_of a == k.github_of b

  abbrev pub same_forgejo : A → A → Bool
  same_forgejo a b = k.repository_of a == k.repository_of b && k.forgejo_of a == k.forgejo_of b

-- The columns of the second constraint, as SQLite's messages name them.
abbrev pub forgejo_columns : {A : Type 0} → Keyed A → String
forgejo_columns k = k.table <> ".repository_github_id, " <> k.table <> ".forgejo_id"

-- The statements set every column but the key to the value of the new row, which so replaces the row of
-- its key.
abbrev pub put : {A : Type 0} → (A → A → Bool) → A → List A → List A
put same row [] = row ∷ []
put same row (x ∷ xs) = if same row x then row ∷ xs else x ∷ put same row xs

-- `INSERT ... ON CONFLICT(key) DO UPDATE SET ...` in a table with one more UNIQUE constraint, on `columns`.
unfoldable pub upsert :
    {A : Type 0} → String → (A → A → Bool) → (A → A → Bool) → A → List A → Result (List A)
upsert columns same clash row table =
    if any (λ x. clash row x && not (same row x)) table
    then err ("UNIQUE constraint failed: " <> columns)
    else ok (put same row table)
