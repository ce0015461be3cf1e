-- ===== src/Tests/Plans.antt =====
-- internal/gitrefs/policy.go on two forges with four refs.
use forge_sync.Base.{
  String, none, some, List, [], ◌∷◌, ◌≡◌, ◌≢◌, refl, ◌&&◌, ◌==◌, ◌↔◌, string_eq, sort_by,
}
use forge_sync.Base.Dict.{lookup, insert}
use forge_sync.Base.Int.{pos}
use forge_sync.Model.{Conflict, Time}
use forge_sync.Result.{ok}
use forge_sync.Gitrefs.Policy.{
  github, forgejo, Action, Refs, Ancestry, union, add_all, append, compare_shas, decide_ref,
  plan_refs, plan,
}
use forge_sync.Gitrefs.Policy.Effects.{deliver, conflict_at}
use forge_sync.Gitrefs.Policy.Safety.{
  Follows, IsDiverged, plan_keeps_github, plan_keeps_forgejo, plan_conflict_iff,
}
use forge_sync.Gitrefs.Policy.Convergence.{plan_converges, plan_twice}

-- The one commit c1 has the child c2, and no other two commits are related.
abbrev history : Ancestry
history a b = ok (a == "c1" && b == "c2")

abbrev clock : String → Time
clock r = 7

abbrev on_github : Refs
on_github = ("main", "c2") ∷ ("dev", "x") ∷ ("solo", "s") ∷ []

abbrev on_forgejo : Refs
on_forgejo = ("dev", "y") ∷ ("main", "c1") ∷ ("tag", "t") ∷ []

abbrev pushes : List Action
pushes =
    record { ref = "main"; sha = "c2"; from = github; to = forgejo }
    ∷ record { ref = "solo"; sha = "s"; from = github; to = forgejo }
    ∷ record { ref = "tag"; sha = "t"; from = forgejo; to = github }
    ∷ []

abbrev conflicts : List Conflict
conflicts =
    record {
      id = pos 0;
      kind = "git-ref-divergence";
      repository = "o/r";
      object_key = "dev";
      github_state = "x";
      forgejo_state = "y";
      last_known_state = "";
      created_at = 7;
      resolved_at = none;
    }
    ∷ []

planned : plan "o/r" history clock on_github on_forgejo ≡ ok (pushes, conflicts)
unfolding plan plan_refs decide_ref compare_shas append union add_all string_eq sort_by lookup
planned = refl

abbrev after_github : Refs
after_github = ("main", "c2") ∷ ("dev", "x") ∷ ("solo", "s") ∷ ("tag", "t") ∷ []

delivered : deliver github pushes on_github ≡ after_github
unfolding deliver string_eq insert
delivered = refl

plan_keeps_github_example :
    (new : String) × (lookup "main" (deliver github pushes on_github) ≡ some new)
    × Follows "o/r" history clock "c2" new
unfolding lookup string_eq
plan_keeps_github_example =
    plan_keeps_github "o/r" history clock on_github on_forgejo pushes conflicts planned "main" "c2"
      refl

plan_keeps_forgejo_example :
    (new : String) × (lookup "main" (deliver forgejo pushes on_forgejo) ≡ some new)
    × Follows "o/r" history clock "c1" new
unfolding lookup string_eq
plan_keeps_forgejo_example =
    plan_keeps_forgejo "o/r" history clock on_github on_forgejo pushes conflicts planned "main" "c1"
      refl

plan_conflict_iff_example :
    (conflict_at "dev" conflicts ≢ none)
    ↔ IsDiverged "o/r" history clock (lookup "dev" on_github) (lookup "dev" on_forgejo)
plan_conflict_iff_example =
    plan_conflict_iff "o/r" history clock on_github on_forgejo pushes conflicts planned "dev"

plan_converges_example :
    lookup "main" (deliver github pushes on_github)
    ≡ lookup "main" (deliver forgejo pushes on_forgejo)
unfolding string_eq
plan_converges_example =
    plan_converges "o/r" history clock on_github on_forgejo pushes conflicts planned "main" refl

plan_twice_example :
    (cs' : List Conflict) × (plan "o/r" history clock
        (deliver github pushes on_github)
        (deliver forgejo pushes on_forgejo)
      ≡ ok ([], cs'))
    × ((r : String) → conflict_at r cs' ≡ conflict_at r conflicts)
plan_twice_example = plan_twice "o/r" history clock on_github on_forgejo pushes conflicts planned
