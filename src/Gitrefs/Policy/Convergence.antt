-- ===== src/Gitrefs/Policy/Convergence.antt =====
-- A plan that is carried out brings the forges together, and planning again finds nothing to push.
use forge_sync.Base.{
  String, true, false, Option, none, some, List, [], ◌∷◌, ◌≡◌, refl, sym, ◌∙◌, ap, ◌⊎◌, inl, inr,
  arith, ◌≢◌, string_eq, contains, Bool-cases,
}
use forge_sync.Base.Dict.{lookup, keys, contains-keys, lookup-ne-none}
use forge_sync.Model.{Conflict, Time}
use forge_sync.Result.{ok}
use forge_sync.Gitrefs.Policy.{
  github, forgejo, Action, Refs, Ancestry, Decision, push, same, diverged, union, decide_ref, plan,
}
use forge_sync.Gitrefs.Policy.Outcomes.{
  Planned, done, kept, recorded, Planned-plan_refs, union-contains, union-IsNodup,
}
use forge_sync.Gitrefs.Policy.Effects.{
  deliver, conflict_at, conflict_of, wins, outcome, conflict_at-other,
}
use forge_sync.Gitrefs.Policy.Safety.{plan-Outcome, plan-absent, absent_both}

-- What a decision becomes once it has been carried out.
abbrev settle : Decision → Decision
settle (push a) = same
settle d = d

module _ (repository : String) (is_ancestor : Ancestry) (clock : String → Time) where
  decide_ref-agree :
      (r : String) (g f : Option String) (d : Decision)
      → decide_ref repository is_ancestor clock r g f ≡ ok d
      → (g ≢ none) ⊎ (f ≢ none)
      → conflict_of d ≡ none
      → wins github d g ≡ wins forgejo d f
  unfolding decide_ref
  decide_ref-agree r g none d h p c = ground arith
  decide_ref-agree r none (some f) d h p c = ground arith
  decide_ref-agree r (some g) (some f) d h p c = ground arith

  decide_ref-settle :
      (r : String) (g f : Option String) (d : Decision)
      → decide_ref repository is_ancestor clock r g f ≡ ok d
      → (g ≢ none) ⊎ (f ≢ none)
      → decide_ref repository is_ancestor clock r (wins github d g) (wins forgejo d f)
        ≡ ok (settle d)
  unfolding decide_ref
  decide_ref-settle r none none d h p = ground arith
  decide_ref-settle r (some g) none d h p = ground arith
  decide_ref-settle r none (some f) d h p = ground arith
  decide_ref-settle r (some g) (some f) d h p = ground arith

  -- A loop whose refs all agree or diverge pushes nothing.
  quiet :
      (gh fj : Refs) (refs : List String)
      → ((r : String)
          → contains refs r ≡ true
          → (d : Decision) × (decide_ref repository is_ancestor clock r (lookup r gh) (lookup r fj)
              ≡ ok (settle d)))
      → (cs : List Conflict) × Planned repository is_ancestor clock gh fj refs [] cs
  quiet gh fj [] h = ([], done)
  quiet gh fj (x ∷ refs) h =
      let (d, e) = h x (ground arith) in
      let (cs, t) = quiet gh fj refs (λ r m. h r (ground arith)) in add d cs e t
    where
      add :
          (d : Decision) (cs : List Conflict)
          → decide_ref repository is_ancestor clock x (lookup x gh) (lookup x fj) ≡ ok (settle d)
          → Planned repository is_ancestor clock gh fj refs [] cs
          → (cs' : List Conflict) × Planned repository is_ancestor clock gh fj (x ∷ refs) [] cs'
      add (push a) cs e t = (cs, kept e t)
      add same cs e t = (cs, kept e t)
      add (diverged c) cs e t = (c ∷ cs, recorded e t)

  held :
      (gh fj : Refs) (r : String)
      → contains (union gh fj) r ≡ true
      → (lookup r gh ≢ none) ⊎ (lookup r fj ≢ none)
  held gh fj r h = elim (Bool-cases (contains (keys gh) r)) [
    | inl g ↦ inl (lookup-ne-none gh r g)
    | inr g ↦ inr (lookup-ne-none fj r (ground (arith, union-contains gh fj r)))
  ]

  module _ (gh fj : Refs) (acts : List Action) (cs : List Conflict)
      (planned : plan repository is_ancestor clock gh fj ≡ ok (acts, cs)) where
    -- When the plan is carried out, the forges hold the same commit, or both none, for every ref about
    -- which the plan records no conflict.
    pub plan_converges :
        (r : String)
        → conflict_at r cs ≡ none
        → lookup r (deliver github acts gh) ≡ lookup r (deliver forgejo acts fj)
    plan_converges r c = elim (Bool-cases (contains (union gh fj) r)) [
      | inl h ↦
          let o = plan-Outcome repository is_ancestor clock gh fj acts cs planned r h in
          o.delivered github gh
          ∙ decide_ref-agree r (lookup r gh) (lookup r fj) o.d o.decided (held gh fj r h)
              (sym o.noted ∙ c)
          ∙ sym (o.delivered forgejo fj)
      | inr h ↦
          let n = absent_both repository is_ancestor clock gh fj acts cs planned r h in
          let k = (plan-absent repository is_ancestor clock gh fj acts cs planned r h).0 in
          k github gh ∙ n.0 ∙ sym n.1 ∙ sym (k forgejo fj)
    ]

    abbrev after_github : Refs
    after_github = deliver github acts gh

    abbrev after_forgejo : Refs
    after_forgejo = deliver forgejo acts fj

    union-after :
        (r : String)
        → contains (union after_github after_forgejo) r ≡ true
        → contains (union gh fj) r ≡ true
    union-after r h = elim (Bool-cases (contains (union gh fj) r)) [
      | inl e ↦ e
      | inr e ↦
          let n = absent_both repository is_ancestor clock gh fj acts cs planned r e in
          let k = (plan-absent repository is_ancestor clock gh fj acts cs planned r e).0 in
          elim (held after_github after_forgejo r h) [
            | inl p ↦ absurd (p (k github gh ∙ n.0))
            | inr p ↦ absurd (p (k forgejo fj ∙ n.1))
          ]
    ]

    settled :
        (r : String)
        → contains (union gh fj) r ≡ true
        → (d : Decision) × (decide_ref repository is_ancestor clock r
              (lookup r after_github)
              (lookup r after_forgejo)
            ≡ ok (settle d))
          × (conflict_at r cs ≡ conflict_of d)
    settled r h =
        let o = plan-Outcome repository is_ancestor clock gh fj acts cs planned r h in
        (
          o.d,
          rw (o.delivered github gh, o.delivered forgejo fj)
              (decide_ref-settle r (lookup r gh) (lookup r fj) o.d o.decided (held gh fj r h)),
          o.noted,
        )

    conflict_of-settle : (d : Decision) → conflict_of (settle d) ≡ conflict_of d
    conflict_of-settle (push a) = refl
    conflict_of-settle same = refl
    conflict_of-settle (diverged c) = refl

    plan_again :
        (cs' : List Conflict)
        → Planned repository is_ancestor clock after_github after_forgejo
            (union after_github after_forgejo)
            []
            cs'
        → plan repository is_ancestor clock after_github after_forgejo ≡ ok ([], cs')
    unfolding plan
    plan_again cs' t = elim (string_eq.dec repository "") [
      | yes e ↦ ground (arith, planned)
      | no n ↦
          ground (
            arith,
            Planned-plan_refs repository is_ancestor clock after_github after_forgejo [] [] t,
          )
    ]

    absent_after :
        (r : String)
        → contains (union after_github after_forgejo) r ≡ false
        → (d : Decision)
        → decide_ref repository is_ancestor clock r (lookup r after_github) (lookup r after_forgejo)
          ≡ ok (settle d)
        → ⊥
    unfolding decide_ref
    absent_after r m d e = ground (
      arith,
      union-contains after_github after_forgejo r,
      contains-keys after_github r,
      contains-keys after_forgejo r,
    )

    conflict_again :
        (cs' : List Conflict)
        → Planned repository is_ancestor clock after_github after_forgejo
            (union after_github after_forgejo)
            []
            cs'
        → (r : String) → conflict_at r cs' ≡ conflict_at r cs
    conflict_again cs' t r = elim (Bool-cases (contains (union after_github after_forgejo) r)) [
      | inl m ↦
          let (d, e, n) = settled r (union-after r m) in
          let o =
            outcome repository is_ancestor clock after_github after_forgejo r t
              (union-IsNodup after_github after_forgejo) m in
          let same_d : o.d ≡ settle d = cc (o.decided, e) in
          o.noted ∙ ap conflict_of same_d ∙ conflict_of-settle d ∙ sym n
      | inr m ↦
          conflict_at-other repository is_ancestor clock after_github after_forgejo r t m
          ∙ sym (elim (Bool-cases (contains (union gh fj) r)) [
            | inl p ↦ let (d, e, n) = settled r p in absurd (absent_after r m d e)
            | inr p ↦ (plan-absent repository is_ancestor clock gh fj acts cs planned r p).1
          ])
    ]

    -- Planning again, after the plan has been carried out, succeeds with no push, and records about every
    -- ref the conflict that the first plan recorded about it.
    pub plan_twice :
        (cs' : List Conflict) × (plan repository is_ancestor clock after_github after_forgejo
          ≡ ok ([], cs'))
        × ((r : String) → conflict_at r cs' ≡ conflict_at r cs)
    plan_twice =
        let (cs', t) =
          quiet after_github after_forgejo (union after_github after_forgejo)
            (λ r m. let (d, e, _) = settled r (union-after r m) in (d, e)) in
        (cs', plan_again cs' t, conflict_again cs' t)
