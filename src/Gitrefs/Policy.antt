-- ===== src/Gitrefs/Policy.antt =====
-- internal/gitrefs/policy.go: the plan of pushes and conflicts for the refs of two forges.
pub mod Outcomes
pub mod Effects
pub mod Safety
pub mod Convergence
pub mod Divergence
use Prim.Native.Nat.{Ordering}
use Prim.Native.String.{compare}
use forge_sync.Base.{
  ℕ, String, ◌<>◌, Bool, true, false, Option, none, some, List, [], ◌∷◌, ◌++◌, ◌||◌, ◌==◌,
  string_eq, contains, if◌then◌else◌, sort_by,
}
use forge_sync.Base.Dict.{Dict, keys, lookup}
use forge_sync.Base.Int.{ℤ, pos}
use forge_sync.Model.{Conflict, Time}
use forge_sync.Result.{Result, ok, err, wrap, ◌>>=◌}

pub data Forge : Type 0 where
  github forgejo : Forge

pub record Action : Type 0 where
  pub ref : String
  pub sha : String
  pub from : Forge
  pub to : Forge

-- Refs of a forge, by name.
abbrev pub Refs : Type 0
Refs = Dict String String

-- `isAncestor(ancestor, descendant)`
abbrev pub Ancestry : Type 0
Ancestry = String → String → Result Bool

-- Byte order, as `sort.Strings` uses it.
abbrev pub string_le : String → String → Bool
string_le s t = elim (compare s t) [ Ordering.gt ↦ false | _ ↦ true ]

-- `set[ref] = true` for each key
unfoldable pub add_all : List String → List String → List String
add_all [] set = set
add_all (ref ∷ refs) set = add_all refs (if contains set ref then set else ref ∷ set)

unfoldable pub union : Refs → Refs → List String
unfolding add_all
union github_refs forgejo_refs =
    sort_by string_le (add_all (keys forgejo_refs) (add_all (keys github_refs) []))

-- What the loop body does with one ref: append an action, append a conflict, or nothing.
pub data Decision : Type 0 where
  push : Action → Decision
  same : Decision
  diverged : Conflict → Decision

-- A missing key of a Go map reads as the empty string.
abbrev or_zero : Option String → String
or_zero none = ""
or_zero (some sha) = sha

-- The slices after the loop body has run.
unfoldable pub append : Decision → List Action × List Conflict → List Action × List Conflict
append (push a) (actions, conflicts) = (actions ++ a ∷ [], conflicts)
append same (actions, conflicts) = (actions, conflicts)
append (diverged c) (actions, conflicts) = (actions, conflicts ++ c ∷ [])

module _ (repository : String) (is_ancestor : Ancestry) (clock : String → Time) where
  -- The `default` case: two different commits.
  unfoldable pub compare_shas : String → String → String → Result Decision
  compare_shas ref github_sha forgejo_sha = do
    forgejo_ahead ← wrap ("check ancestry for " <> ref) (is_ancestor github_sha forgejo_sha)
    if forgejo_ahead
        then ok (push (record { ref = ref; sha = forgejo_sha; from = forgejo; to = github }))
        else do
          github_ahead ← wrap ("check ancestry for " <> ref) (is_ancestor forgejo_sha github_sha)
          if github_ahead
              then ok (push (record { ref = ref; sha = github_sha; from = github; to = forgejo }))
              else ok (
                  diverged (record {
                    id = pos 0;
                    kind = "git-ref-divergence";
                    repository = repository;
                    object_key = ref;
                    github_state = github_sha;
                    forgejo_state = forgejo_sha;
                    last_known_state = "";
                    created_at = clock ref;
                    resolved_at = none;
                  }))

  -- The `switch` on one ref, given what the two maps hold for it.
  unfoldable pub decide_ref : String → Option String → Option String → Result Decision
  unfolding compare_shas
  decide_ref ref on_github none =
      ok (push (record { ref = ref; sha = or_zero on_github; from = github; to = forgejo }))
  decide_ref ref none (some forgejo_sha) =
      ok (push (record { ref = ref; sha = forgejo_sha; from = forgejo; to = github }))
  decide_ref ref (some github_sha) (some forgejo_sha) =
      if github_sha == forgejo_sha then ok same else compare_shas ref github_sha forgejo_sha

  module _ (github_refs forgejo_refs : Refs) where
    unfoldable pub plan_refs :
        List String → List Action × List Conflict → Result (List Action × List Conflict)
    plan_refs [] acc = ok acc
    plan_refs (ref ∷ refs) acc = do
      d ← decide_ref ref (lookup ref github_refs) (lookup ref forgejo_refs)
      plan_refs refs (append d acc)

    -- The ancestry checker is never nil here.
    unfoldable pub plan : Result (List Action × List Conflict)
    plan =
        if repository == ""
        then err "repository and ancestry checker are required"
        else plan_refs (union github_refs forgejo_refs) ([], [])
