-- ===== src/PullRequests/Adoption.antt =====
-- Which pull request is adopted when a forge refuses to create one.
use forge_sync.Base.{
  Bool, true, false, Option, none, some, List, [], ◌∷◌, ◌≡◌, refl, arith, ◌==◌, string_eq, find,
  contains, any,
}
use forge_sync.Base.Int.{ℤ, int_eq}
use forge_sync.Base.Text.{Unicode}
use forge_sync.Model.{PullRequest}
use forge_sync.PullRequests.{adopt_pull_request, adopt_pull_request_by_refs}
use forge_sync.PullRequests.Create.{either}

-- The pull request that is adopted: it has the id of a candidate, spans the same refs as the one that was
-- refused, and is not consumed.
pub record IsAdopted (candidates : List PullRequest) (wanted : PullRequest) (consumed : List ℤ)
    (p : PullRequest) : Type 0 where
  pub listed : any (λ c. c.id == p.id) candidates ≡ true
  pub head : p.head ≡ wanted.head
  pub base : p.base ≡ wanted.base
  pub free : contains consumed p.id ≡ false

find-passes : {A : Type 0} (p : A → Bool) (xs : List A) (x : A) → find p xs ≡ some x → p x ≡ true
find-passes p [] x h = ground arith
find-passes p (y ∷ ys) x h = ground (arith, find-passes p ys x)

find-listed :
    (p : PullRequest → Bool) (xs : List PullRequest) (x : PullRequest)
    → find p xs ≡ some x
    → any (λ c. c.id == x.id) xs ≡ true
find-listed p [] x h = ground arith
find-listed p (y ∷ ys) x h = ground (arith, find-listed p ys x)

module _ (unicode : Unicode) (candidates : List PullRequest) (wanted : PullRequest)
    (consumed : List ℤ) (p : PullRequest) where
  by_refs-IsAdopted :
      adopt_pull_request_by_refs unicode candidates wanted consumed ≡ some p
      → IsAdopted candidates wanted consumed p
  unfolding adopt_pull_request_by_refs
  by_refs-IsAdopted h =
      let passed = find-passes _ candidates p h in
      record {
        listed = find-listed _ candidates p h;
        head = ground arith;
        base = ground arith;
        free = ground arith;
      }

  by_title-IsAdopted :
      adopt_pull_request unicode candidates wanted consumed ≡ some p
      → IsAdopted candidates wanted consumed p
  unfolding adopt_pull_request
  by_title-IsAdopted h =
      let passed = find-passes _ candidates p h in
      record {
        listed = find-listed _ candidates p h;
        head = ground arith;
        base = ground arith;
        free = ground arith;
      }

  -- When Forgejo refuses to create a pull request, the one that is adopted in its place is one of Forgejo's
  -- pull requests, spans the same head and base, and is not consumed by a mapping or a pair.
  pub either-IsAdopted :
      either
          (adopt_pull_request unicode candidates wanted consumed)
          (adopt_pull_request_by_refs unicode candidates wanted consumed)
        ≡ some p
      → IsAdopted candidates wanted consumed p
  either-IsAdopted h = from (adopt_pull_request unicode candidates wanted consumed) refl
    where
      from :
          (first : Option PullRequest)
          → adopt_pull_request unicode candidates wanted consumed ≡ first
          → IsAdopted candidates wanted consumed p
      from none e = by_refs-IsAdopted (ground arith)
      from (some q) e = by_title-IsAdopted (ground arith)
