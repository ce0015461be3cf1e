-- ===== src/Engine/Pool/Ends.antt =====
-- Every schedule of the workers ends.
use forge_sync.Base.{
  ℕ, zero, suc, ◌+◌, ◌*◌, ◌<◌, ◌≤◌, Bool, true, false, List, [], ◌∷◌, ◌++◌, ◌≡◌, ◌⊎◌, inl, inr,
  refl, ap, arith, nat_eq, if◌then◌else◌, length,
}
use forge_sync.Model.{RepositoryMapping}
use forge_sync.Result.{Result, ok, err}
use forge_sync.State.Db.{Sys}
use forge_sync.Engine.{RepositoryResult, Engine}
use forge_sync.Engine.Repository.{reconcile_one}
use forge_sync.Engine.Pool.{
  Pool, IsDone, start, Work, feed, close, take, finish, drop, fail, leave, Step, work, interrupt,
  Steps, stop, step,
}

length-append : (xs ys : List RepositoryMapping) → length (xs ++ ys) ≡ length xs + length ys
length-append [] ys = ground arith
length-append (x ∷ xs) ys = ground (arith, length-append xs ys)

-- What is left to do: every mapping is fed, taken and ended, every worker leaves, and the channel and the
-- context end once.
measure : Pool → ℕ
measure p =
    4 * length p.pending
    + 3 * length p.jobs
    + 2 * length p.busy
    + p.idle
    + (if p.closed then 0 else 1)
    + (if p.cancelled then 0 else 1)

module _ {W : Type 0} (engine : Engine W) (dry_run : Bool) (max_concurrency : ℕ) where
  Work-measure : {p t : Pool} → Work engine dry_run max_concurrency p t → measure t < measure p
  unfolding measure
  Work-measure (feed p m rest c e l) =
      ground (arith, length-append p.jobs (m ∷ []), ap (λ xs. length xs) e)
  Work-measure (close p c e) = ground arith
  Work-measure (take p m rest i e k) = ground (arith, ap (λ xs. length xs) e)
  Work-measure (finish p m before after r e w) =
      ground (
        arith,
        ap (λ xs. length xs) e,
        length-append before (m ∷ after),
        length-append before after,
      )
  Work-measure (drop p m before after r e w c) =
      ground (
        arith,
        ap (λ xs. length xs) e,
        length-append before (m ∷ after),
        length-append before after,
      )
  Work-measure (fail p m before after x e w) =
      ground (
        arith,
        ap (λ xs. length xs) e,
        length-append before (m ∷ after),
        length-append before after,
      )
  Work-measure (leave p i e c k) = ground arith

  Step-measure : {p t : Pool} → Step engine dry_run max_concurrency p t → measure t < measure p
  unfolding measure
  Step-measure (work p t w) = Work-measure w
  Step-measure (interrupt p c) = ground arith

  Steps-measure :
      {n : ℕ} {p t : Pool} → Steps engine dry_run max_concurrency n p t → n + measure t ≤ measure p
  Steps-measure (stop p) = ground arith
  Steps-measure (step p u t s rest) = ground (arith, Step-measure s, Steps-measure rest)

  abbrev CanWork : Pool → Type 0
  CanWork p = (t : Pool) × Work engine dry_run max_concurrency p t

  can_end :
      (p : Pool) (s : Sys W) (m : RepositoryMapping) (rest : List RepositoryMapping)
      → p.busy ≡ m ∷ rest
      → CanWork p
  can_end p s m rest e = go (reconcile_one engine m dry_run s).0 refl
    where
      go : (r : Result RepositoryResult) → (reconcile_one engine m dry_run s).0 ≡ r → CanWork p
      go (ok r) h = (_, finish p m [] rest r e (s, h))
      go (err x) h = (_, fail p m [] rest x e (s, h))

  can_feed :
      (p : Pool) (pending : List RepositoryMapping) (idle : ℕ) (closed : Bool)
      → 0 < max_concurrency
      → p.jobs ≡ []
      → p.pending ≡ pending
      → p.idle ≡ suc idle
      → p.closed ≡ closed
      → CanWork p
  can_feed p pending idle true l j e i c = (_, leave p idle j c i)
  can_feed p [] idle false l j e i c = (_, close p c (inl e))
  can_feed p (m ∷ rest) idle false l j e i c = (_, feed p m rest c e (rw j l))

  can_work :
      (p : Pool) (jobs : List RepositoryMapping) (idle : ℕ)
      → 0 < max_concurrency
      → p.jobs ≡ jobs
      → p.idle ≡ suc idle
      → CanWork p
  can_work p [] idle l j i = can_feed p p.pending idle p.closed l j refl i refl
  can_work p (m ∷ rest) idle l j i = (_, take p m rest idle j i)

  progress : (p : Pool) (s : Sys W) → 0 < max_concurrency → IsDone p ⊎ CanWork p
  progress p s l = go p.busy p.idle refl refl
    where
      go :
          (busy : List RepositoryMapping) (idle : ℕ)
          → p.busy ≡ busy
          → p.idle ≡ idle
          → IsDone p ⊎ CanWork p
      go [] zero b i = inl (record { none_idle = i; none_busy = b })
      go [] (suc idle) b i = inr (can_work p p.jobs idle l refl i)
      go (m ∷ rest) idle b i = inr (can_end p s m rest b)

  -- With at least one worker, no schedule of n mappings has more than 5n + 2 steps, whatever fails or is
  -- cancelled, and none is stuck: as long as a worker is left, the feeder or a worker has a step to make, which
  -- need not wait for the caller to end its context.
  pub pool_terminates :
      (mappings : List RepositoryMapping) (n : ℕ) (p : Pool) (s : Sys W)
      → 0 < max_concurrency
      → Steps engine dry_run max_concurrency n (start max_concurrency mappings) p
      → (n ≤ 5 * length mappings + 2)
        × (IsDone p ⊎ ((t : Pool) × Work engine dry_run max_concurrency p t))
  unfolding measure start
  pool_terminates mappings n p s l run = (ground (arith, Steps-measure run), progress p s l)
