-- ===== src/Gitrefs/Policy/Safety.antt =====
-- Refs are neither lost nor overwritten, and a conflict is a divergence.
use forge_sync.Base.{
  String, true, false, Option, none, some, List, ◌≡◌, refl, ◌∙◌, ◌⊎◌, inl, inr, arith, ◌≢◌, ◌↔◌,
  string_eq, contains, Bool-cases,
}
use forge_sync.Base.Dict.{lookup, contains-keys, contains-keys_of_lookup}
use forge_sync.Model.{Conflict, Time}
use forge_sync.Result.{ok}
use forge_sync.Gitrefs.Policy.{
  Forge, github, forgejo, Action, Refs, Ancestry, Decision, push, same, diverged, union, decide_ref,
  plan,
}
use forge_sync.Gitrefs.Policy.Outcomes.{plan-Planned, union-contains, union-IsNodup}
use forge_sync.Gitrefs.Policy.Effects.{
  deliver, conflict_at, conflict_of, wins, Outcome, outcome, deliver-other, conflict_at-other,
}

module _ (repository : String) (is_ancestor : Ancestry) (clock : String → Time) where
  -- `old` may be replaced by `new` without rewriting history.
  abbrev pub Follows : String → String → Type 0
  Follows old new = (old ≡ new) ⊎ (is_ancestor old new ≡ ok true)

  -- Both forges hold the ref, at commits neither of which is an ancestor of the other.
  pub record IsDiverged (on_github on_forgejo : Option String) : Type 0 where
    pub g : String
    pub f : String
    pub held_github : on_github ≡ some g
    pub held_forgejo : on_forgejo ≡ some f
    pub differ : g ≢ f
    pub not_behind : is_ancestor g f ≡ ok false
    pub not_ahead : is_ancestor f g ≡ ok false

  keeps_github :
      (r old : String) (f : Option String) (d : Decision)
      → decide_ref repository is_ancestor clock r (some old) f ≡ ok d
      → (new : String) × (wins github d (some old) ≡ some new) × Follows old new
  unfolding decide_ref
  keeps_github r old none d h = (old, ground arith, inl refl)
  keeps_github r old (some f) (push a) h = elim (string_eq.dec old a.sha) [
    | yes p ↦ (old, ground arith, inl refl)
    | no q ↦ (elim a.to [ github ↦ a.sha | forgejo ↦ old ], ground arith, ground arith)
  ]
  keeps_github r old (some f) same h = (old, refl, inl refl)
  keeps_github r old (some f) (diverged c) h = (old, refl, inl refl)

  keeps_forgejo :
      (r old : String) (g : Option String) (d : Decision)
      → decide_ref repository is_ancestor clock r g (some old) ≡ ok d
      → (new : String) × (wins forgejo d (some old) ≡ some new) × Follows old new
  unfolding decide_ref
  keeps_forgejo r old none d h = (old, ground arith, inl refl)
  keeps_forgejo r old (some g) (push a) h =
      (elim a.to [ github ↦ old | forgejo ↦ a.sha ], ground arith, ground arith)
  keeps_forgejo r old (some g) same h = (old, refl, inl refl)
  keeps_forgejo r old (some g) (diverged c) h = (old, refl, inl refl)

  decide_ref-IsDiverged :
      (r : String) (g f : Option String) (d : Decision)
      → decide_ref repository is_ancestor clock r g f ≡ ok d
      → (conflict_of d ≢ none) ↔ IsDiverged g f
  unfolding decide_ref
  decide_ref-IsDiverged r g none d h = (λ c. ground arith, λ v. ground arith)
  decide_ref-IsDiverged r none (some f) d h = (λ c. ground arith, λ v. ground arith)
  decide_ref-IsDiverged r (some g) (some f) d h = (
    λ c. record {
      g = g;
      f = f;
      held_github = refl;
      held_forgejo = refl;
      differ = ground arith;
      not_behind = ground arith;
      not_ahead = ground arith;
    },
    λ v. ground arith,
  )

  module _ (gh fj : Refs) (acts : List Action) (cs : List Conflict)
      (planned : plan repository is_ancestor clock gh fj ≡ ok (acts, cs)) where
    -- Every ref of either forge has one decision, and the plan carries it out.
    pub plan-Outcome :
        (r : String)
        → contains (union gh fj) r ≡ true
        → Outcome repository is_ancestor clock gh fj r acts cs
    plan-Outcome r h =
        outcome repository is_ancestor clock gh fj r
          (plan-Planned repository is_ancestor clock gh fj acts cs planned) (union-IsNodup gh fj) h

    pub plan-absent :
        (r : String)
        → contains (union gh fj) r ≡ false
        → ((f : Forge) (m : Refs) → lookup r (deliver f acts m) ≡ lookup r m)
          × (conflict_at r cs ≡ none)
    plan-absent r h =
        let t = plan-Planned repository is_ancestor clock gh fj acts cs planned in
        (
          λ f m. deliver-other repository is_ancestor clock gh fj r f m t h,
          conflict_at-other repository is_ancestor clock gh fj r t h,
        )

    union_of_github : (r old : String) → lookup r gh ≡ some old → contains (union gh fj) r ≡ true
    union_of_github r old h =
        ground (arith, union-contains gh fj r, contains-keys_of_lookup gh r old)

    union_of_forgejo : (r old : String) → lookup r fj ≡ some old → contains (union gh fj) r ≡ true
    union_of_forgejo r old h =
        ground (arith, union-contains gh fj r, contains-keys_of_lookup fj r old)

    pub absent_both :
        (r : String)
        → contains (union gh fj) r ≡ false
        → (lookup r gh ≡ none) × (lookup r fj ≡ none)
    absent_both r h = ground (arith, union-contains gh fj r, contains-keys gh r, contains-keys fj r)

    plan_keeps_refs :
        (r old : String)
        → (lookup r gh ≡ some old
            → (new : String) × (lookup r (deliver github acts gh) ≡ some new) × Follows old new)
          × (lookup r fj ≡ some old
              → (new : String) × (lookup r (deliver forgejo acts fj) ≡ some new) × Follows old new)
    plan_keeps_refs r old = (
      λ h.
          let o = plan-Outcome r (union_of_github r old h) in
          let (new, w, k) = keeps_github r old (lookup r fj) o.d (rw (← h) o.decided) in
          (new, o.delivered github gh ∙ rw h w, k),
      λ h.
          let o = plan-Outcome r (union_of_forgejo r old h) in
          let (new, w, k) = keeps_forgejo r old (lookup r gh) o.d (rw (← h) o.decided) in
          (new, o.delivered forgejo fj ∙ rw h w, k),
    )

    -- A conflict is recorded about a ref exactly when both forges hold it, at different commits neither
    -- of which is an ancestor of the other.
    pub plan_conflict_iff :
        (r : String) → (conflict_at r cs ≢ none) ↔ IsDiverged (lookup r gh) (lookup r fj)
    plan_conflict_iff r = elim (Bool-cases (contains (union gh fj) r)) [
      | inl h ↦
          let o = plan-Outcome r h in
          rw o.noted (decide_ref-IsDiverged r (lookup r gh) (lookup r fj) o.d o.decided)
      | inr h ↦ (
        λ c. absurd (c (plan-absent r h).1),
        λ v. absurd (cc ((absent_both r h).0, v.held_github)),
      )
    ]

    -- When the plan is carried out, a ref that GitHub held at `old` is still there on GitHub, at `old` or at
    -- a commit that `old` is an ancestor of.
    pub plan_keeps_github :
        (r old : String)
        → lookup r gh ≡ some old
        → (new : String) × (lookup r (deliver github acts gh) ≡ some new) × Follows old new
    plan_keeps_github r old h = (plan_keeps_refs r old).0 h

    -- When the plan is carried out, a ref that Forgejo held at `old` is still there on Forgejo, at `old` or
    -- at a commit that `old` is an ancestor of.
    pub plan_keeps_forgejo :
        (r old : String)
        → lookup r fj ≡ some old
        → (new : String) × (lookup r (deliver forgejo acts fj) ≡ some new) × Follows old new
    plan_keeps_forgejo r old h = (plan_keeps_refs r old).1 h
