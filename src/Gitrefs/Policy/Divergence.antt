-- ===== src/Gitrefs/Policy/Divergence.antt =====
-- The conflict that a plan has about a ref.
use forge_sync.Base.{
  String, false, Option, none, some, List, ◌≡◌, sym, ◌∙◌, arith, ◌==◌, string_eq, contains,
  Bool-cases, inl, inr,
}
use forge_sync.Base.Dict.{lookup}
use forge_sync.Model.{Conflict, Time}
use forge_sync.Result.{ok}
use forge_sync.Gitrefs.Policy.{
  Action, Refs, Ancestry, Decision, push, same, diverged, union, decide_ref, plan,
}
use forge_sync.Gitrefs.Policy.Effects.{conflict_at, conflict_of}
use forge_sync.Gitrefs.Policy.Safety.{plan-Outcome, plan-absent}

-- The conflict says that the forges hold these two different commits for the ref.
pub record IsDivergence (repository r : String) (g f : Option String) (c : Conflict) : Type 0 where
  pub kind : c.kind ≡ "git-ref-divergence"
  pub of_repository : c.repository ≡ repository
  pub about : c.object_key ≡ r
  pub on_github : g ≡ some c.github_state
  pub on_forgejo : f ≡ some c.forgejo_state
  pub differ : (c.github_state == c.forgejo_state) ≡ false

module _ (repository : String) (is_ancestor : Ancestry) (clock : String → Time) where
  decide_ref-IsDivergence :
      (r : String) (g f : Option String) (c : Conflict)
      → decide_ref repository is_ancestor clock r g f ≡ ok (diverged c)
      → IsDivergence repository r g f c
  unfolding decide_ref
  decide_ref-IsDivergence r g none c h = absurd (ground arith)
  decide_ref-IsDivergence r none (some f) c h = absurd (ground arith)
  decide_ref-IsDivergence r (some g) (some f) c h = record {
    kind = ground arith;
    of_repository = ground arith;
    about = ground arith;
    on_github = ground arith;
    on_forgejo = ground arith;
    differ = ground arith;
  }

  conflict_of-some : (d : Decision) (c : Conflict) → conflict_of d ≡ some c → d ≡ diverged c
  conflict_of-some (push a) c h = absurd cc
  conflict_of-some same c h = absurd cc
  conflict_of-some (diverged x) c h = cc

  pub conflict_at-IsDivergence :
      (gh fj : Refs) (acts : List Action) (cs : List Conflict)
      → plan repository is_ancestor clock gh fj ≡ ok (acts, cs)
      → (r : String) (c : Conflict) → conflict_at r cs ≡ some c
      → IsDivergence repository r (lookup r gh) (lookup r fj) c
  conflict_at-IsDivergence gh fj acts cs planned r c h =
      elim (Bool-cases (contains (union gh fj) r)) [
        | inl m ↦
            let o = plan-Outcome repository is_ancestor clock gh fj acts cs planned r m in
            let d : o.d ≡ diverged c = conflict_of-some o.d c (sym o.noted ∙ h) in
            decide_ref-IsDivergence r (lookup r gh) (lookup r fj) c (cc (o.decided, d))
        | inr m ↦
            let n = (plan-absent repository is_ancestor clock gh fj acts cs planned r m).1 in
            absurd (cc (n, h))
      ]
