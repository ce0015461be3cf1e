-- ===== src/Engine/Pool.antt =====
-- internal/reconcile/engine.go: reconcileMappings with its goroutines, step by step. A step is an
-- operation on a channel or on the context; a run of reconcileOne ends in one of its steps.
pub mod Schedules
pub mod Ends
use forge_sync.Base.{
  ℕ, suc, ◌<◌, String, Bool, true, false, Option, none, some, List, [], ◌∷◌, ◌++◌, ◌≡◌, ◌⊎◌, ◌==◌,
  nat_eq, ltb, if◌then◌else◌, length, map,
}
use forge_sync.Model.{RepositoryMapping}
use forge_sync.Result.{Error, Result, ok, err}
use forge_sync.State.Db.{Sys}
use forge_sync.Engine.{RepositoryResult, Engine}
use forge_sync.Engine.Repository.{reconcile_one}

-- `pending` are the mappings that the feeder has not sent, `jobs` is the buffer of its channel and
-- `closed` tells whether it has ended. `idle` workers wait for a job and `busy` are the jobs of the others.
-- `finished` is the channel of results, each beside its mapping. `lost` are the mappings whose worker has
-- left without a result; the program does not keep them.
pub record Pool : Type 0 where
  pub pending : List RepositoryMapping
  pub jobs : List RepositoryMapping
  pub closed : Bool
  pub idle : ℕ
  pub busy : List RepositoryMapping
  pub finished : List (RepositoryMapping × RepositoryResult)
  pub lost : List RepositoryMapping
  pub failure : Option Error
  pub cancelled : Bool

-- `select { case errorsFound <- err: ... default: }`
abbrev pub first_failure : Option Error → Error → Option Error
first_failure none e = some e
first_failure (some first) e = some first

-- `workers := e.maxConcurrency; if workers > len(mappings) { workers = len(mappings) }`
abbrev pub workers : ℕ → List RepositoryMapping → ℕ
workers max_concurrency mappings =
    if ltb (length mappings) max_concurrency then length mappings else max_concurrency

unfoldable pub start : ℕ → List RepositoryMapping → Pool
start max_concurrency mappings = record {
  pending = mappings;
  jobs = [];
  closed = false;
  idle = workers max_concurrency mappings;
  busy = [];
  finished = [];
  lost = [];
  failure = none;
  cancelled = false;
}

-- All workers have left: `wait.Wait()` returns.
pub record IsDone (p : Pool) : Type 0 where
  pub none_idle : p.idle ≡ 0
  pub none_busy : p.busy ≡ []

-- What follows `wait.Wait()`, for `total` mappings.
unfoldable pub collect : ℕ → Pool → Result (List RepositoryResult)
collect total p = elim p.failure [
  | some e ↦ err e
  | none ↦
      if length p.finished == total
      then ok (map (λ x. x.1) p.finished)
      else err "reconciliation stopped before all repositories completed"
]

module _ {W : Type 0} (engine : Engine W) (dry_run : Bool) (max_concurrency : ℕ) where
  -- A run of reconcileOne on the mapping may end like this.
  abbrev pub EndsWith : RepositoryMapping → Result RepositoryResult → Type 0
  EndsWith m r = (s : Sys W) × ((reconcile_one engine m dry_run s).0 ≡ r)

  -- What the feeder and the workers do by themselves.
  pub data Work : Pool → Pool → Type 0 where
    -- `case jobs <- mapping:`
    feed :
        (p : Pool) (m : RepositoryMapping) (rest : List RepositoryMapping)
        → p.closed ≡ false
        → p.pending ≡ m ∷ rest
        → length p.jobs < max_concurrency
        → Work p (record p { pending = rest; jobs = p.jobs ++ m ∷ [] })
    -- `defer close(jobs)`, at the end of the mappings or of the context
    close :
        (p : Pool)
        → p.closed ≡ false
        → (p.pending ≡ []) ⊎ (p.cancelled ≡ true)
        → Work p (record p { closed = true })
    -- `for mapping := range jobs`
    take :
        (p : Pool) (m : RepositoryMapping) (rest : List RepositoryMapping) (idle : ℕ)
        → p.jobs ≡ m ∷ rest
        → p.idle ≡ suc idle
        → Work p (record p { jobs = rest; idle = idle; busy = m ∷ p.busy })
    -- `case results <- result:`, whose channel is never full
    finish :
        (p : Pool) (m : RepositoryMapping) (before after : List RepositoryMapping)
        (r : RepositoryResult)
        → p.busy ≡ before ++ m ∷ after
        → EndsWith m (ok r)
        → Work p (record p {
          busy = before ++ after;
          idle = suc p.idle;
          finished = p.finished ++ (m, r) ∷ [];
        })
    -- `case <-ctx.Done(): return`
    drop :
        (p : Pool) (m : RepositoryMapping) (before after : List RepositoryMapping)
        (r : RepositoryResult)
        → p.busy ≡ before ++ m ∷ after
        → EndsWith m (ok r)
        → p.cancelled ≡ true
        → Work p (record p { busy = before ++ after; lost = m ∷ p.lost })
    -- The error is reported if it is the first, and the worker leaves.
    fail :
        (p : Pool) (m : RepositoryMapping) (before after : List RepositoryMapping) (e : Error)
        → p.busy ≡ before ++ m ∷ after
        → EndsWith m (err e)
        → Work p (record p {
          busy = before ++ after;
          lost = m ∷ p.lost;
          failure = first_failure p.failure e;
          cancelled = true;
        })
    -- The end of the channel.
    leave :
        (p : Pool) (idle : ℕ)
        → p.jobs ≡ []
        → p.closed ≡ true
        → p.idle ≡ suc idle
        → Work p (record p { idle = idle })

  -- The caller is not part of the pool: it may end its context at any time, and need never do so.
  pub data Step : Pool → Pool → Type 0 where
    work : (p t : Pool) → Work p t → Step p t
    interrupt : (p : Pool) → p.cancelled ≡ false → Step p (record p { cancelled = true })

  -- A run of the pool, of so many steps.
  pub data Steps : ℕ → Pool → Pool → Type 0 where
    stop : (p : Pool) → Steps 0 p p
    step : {n : ℕ} (p q r : Pool) → Step p q → Steps n q r → Steps (suc n) p r
