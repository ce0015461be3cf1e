-- ===== src/Engine/Resilience.antt =====
-- Which failures of a repository end a cycle.
use forge_sync.Base.{true, nat_eq, none, ◌≡◌}
use forge_sync.Base.Text.{contains_text}
use forge_sync.Model.{RepositoryMapping}
use forge_sync.Result.{Error, Result, err}
use forge_sync.Effect.{Exec}
use forge_sync.Effect.Gives.{Gives}
use forge_sync.State.Db.{Db, Sys}
use forge_sync.Engine.{RepositoryResult, Engine}

-- The error of a UNIQUE constraint, however often it was wrapped on its way.
abbrev pub IsCollision : Error → Type 0
IsCollision e = contains_text e "UNIQUE constraint failed" ≡ true

abbrev Any : {A : Type 0} → A → Type 0
Any a = Unit

module _ {W : Type 0} (engine : Engine W) (m : RepositoryMapping)
    (never : (w : W) → (engine.env.sqlite w).0 ≡ none) where
  abbrev ForRepository : RepositoryResult → Type 0
  ForRepository r = r.repository ≡ m.github_full_name

-- Every error that the action ends with is the error of a UNIQUE constraint.
abbrev pub FailsByCollision : {W : Type 0} → Exec (Sys W) (Unit {0}) → Type 0
FailsByCollision {W} a = (s : Sys W) (e : Error) → (a s).0 ≡ err e → IsCollision e
