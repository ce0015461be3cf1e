-- ===== src/Engine/Pool/Schedules.antt =====
-- What every schedule of the workers has in common.
use forge_sync.Base.{
  ℕ, suc, ◌+◌, Bool, true, List, [], ◌∷◌, ◌++◌, ◌≡◌, refl, ap, ◌∙◌, arith, nat_eq, string_eq,
  length, filter, map,
}
use forge_sync.Model.{RepositoryMapping}
use forge_sync.Result.{ok}
use forge_sync.Engine.{RepositoryResult, Engine}
use forge_sync.Engine.Pool.{
  Pool, start, collect, Work, feed, close, take, finish, drop, fail, leave, Step, work, interrupt,
  Steps, stop, step,
}

-- How many mappings pass a test.
abbrev pub tally : (RepositoryMapping → Bool) → List RepositoryMapping → ℕ
tally q xs = length (filter q xs)

-- The mappings of the results that were sent.
abbrev pub done : List (RepositoryMapping × RepositoryResult) → List RepositoryMapping
done [] = []
done ((m, r) ∷ rest) = m ∷ done rest

module _ (q : RepositoryMapping → Bool) where
  tally-append : (xs ys : List RepositoryMapping) → tally q (xs ++ ys) ≡ tally q xs + tally q ys
  tally-append [] ys = ground arith
  tally-append (x ∷ xs) ys = ground (arith, tally-append xs ys)

  tally-middle :
      (xs : List RepositoryMapping) (m : RepositoryMapping) (ys : List RepositoryMapping)
      → tally q (xs ++ m ∷ ys) ≡ tally q (m ∷ (xs ++ ys))
  tally-middle xs m ys = ground (arith, tally-append xs (m ∷ ys), tally-append xs ys)

  tally-done :
      (xs : List (RepositoryMapping × RepositoryResult)) (m : RepositoryMapping)
      (r : RepositoryResult)
      → tally q (done (xs ++ (m, r) ∷ [])) ≡ tally q (m ∷ done xs)
  tally-done [] m r = refl
  tally-done ((n, s) ∷ xs) m r = ground (arith, tally-done xs m r)

  -- The mappings of the pool that pass the test, wherever they are.
  weight : Pool → ℕ
  weight p =
      tally q p.pending
      + tally q p.jobs
      + tally q p.busy
      + tally q (done p.finished)
      + tally q p.lost

  module _ {W : Type 0} (engine : Engine W) (dry_run : Bool) (max_concurrency : ℕ) where
    Work-weight : {p t : Pool} → Work engine dry_run max_concurrency p t → weight t ≡ weight p
    unfolding weight
    Work-weight (feed p m rest c e l) = ground (arith, tally-append p.jobs (m ∷ []), ap (tally q) e)
    Work-weight (close p c e) = refl
    Work-weight (take p m rest i e k) = ground (arith, ap (tally q) e)
    Work-weight (finish p m before after r e w) =
        ground (arith, ap (tally q) e, tally-middle before m after, tally-done p.finished m r)
    Work-weight (drop p m before after r e w c) =
        ground (arith, ap (tally q) e, tally-middle before m after)
    Work-weight (fail p m before after x e w) =
        ground (arith, ap (tally q) e, tally-middle before m after)
    Work-weight (leave p i e c k) = refl

    Step-weight : {p t : Pool} → Step engine dry_run max_concurrency p t → weight t ≡ weight p
    unfolding weight
    Step-weight (work p t w) = Work-weight w
    Step-weight (interrupt p c) = refl

    Steps-weight :
        {n : ℕ} {p t : Pool} → Steps engine dry_run max_concurrency n p t → weight t ≡ weight p
    Steps-weight (stop p) = refl
    Steps-weight (step p u t s rest) = Steps-weight rest ∙ Step-weight s

module _ {W : Type 0} (engine : Engine W) (dry_run : Bool) (max_concurrency : ℕ)
    (mappings : List RepositoryMapping) where
  all : RepositoryMapping → Bool
  all m = true

  tally-all : (xs : List RepositoryMapping) → tally all xs ≡ length xs
  unfolding all
  tally-all [] = refl
  tally-all (x ∷ xs) = ground (arith, tally-all xs)

  length-done : (xs : List (RepositoryMapping × RepositoryResult)) → length (done xs) ≡ length xs
  length-done [] = refl
  length-done ((m, r) ∷ xs) = ap suc (length-done xs)

  tally-empty :
      (q : RepositoryMapping → Bool) (xs : List RepositoryMapping) → length xs ≡ 0 → tally q xs ≡ 0
  tally-empty q [] h = refl
  tally-empty q (x ∷ xs) h = ground arith

  none_left : (xs : List RepositoryMapping) → length xs ≡ 0 → xs ≡ []
  none_left [] h = refl
  none_left (x ∷ xs) h = ground arith

  collect-ok :
      (n : ℕ) (p : Pool) (results : List RepositoryResult)
      → collect n p ≡ ok results
      → (length p.finished ≡ n) × (results ≡ map (λ x. x.1) p.finished)
  unfolding collect nat_eq
  collect-ok n p results h = ground arith

  -- If the workers succeed, then, in whatever order they took the repositories and whatever was
  -- cancelled on the way, every mapping was reconciled exactly as often as it was given, none is lost,
  -- and the results are those of the runs.
  pub pool_complete :
      (n : ℕ) (p : Pool) (results : List RepositoryResult)
      → Steps engine dry_run max_concurrency n (start max_concurrency mappings) p
      → collect (length mappings) p ≡ ok results
      → (q : RepositoryMapping → Bool)
      → (tally q (done p.finished) ≡ tally q mappings)
        × (results ≡ map (λ x. x.1) p.finished)
        × (p.lost ≡ [])
  unfolding start weight
  pool_complete n p results run h q =
      let c = collect-ok (length mappings) p results h in
      let w = Steps-weight q engine dry_run max_concurrency run in
      let a = Steps-weight all engine dry_run max_concurrency run in
      let i = tally-all p.pending in
      let j = tally-all p.jobs in
      let k = tally-all p.busy in
      let l = tally-all p.lost in
      let d = tally-all (done p.finished) in
      let e = length-done p.finished in
      let f = tally-all mappings in
      (
        ground (
          arith,
          tally-empty q p.pending,
          tally-empty q p.jobs,
          tally-empty q p.busy,
          tally-empty q p.lost,
        ),
        c.1,
        none_left p.lost (ground arith),
      )
