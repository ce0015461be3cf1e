-- ===== src/Gitrefs/Sync/Agrees.antt =====
-- What the forges agree on after a run of Sync: the plan, the conflicts and the pushes together.
use forge_sync.Base.{
  String, Bool, true, false, ◌&&◌, Option, none, some, List, [], ◌∷◌, ◌≡◌, ◌≢◌, ◌⊎◌, inl, inr, refl,
  sym, ap, ◌∙◌, arith, ◌==◌, string_eq, any, find, All, Bool-cases,
}
use mathlib.Core.Path.{subst}
use forge_sync.Base.Dict.{lookup}
use forge_sync.Model.{Conflict}
use forge_sync.Result.{ok}
use forge_sync.Effect.{◌>>=◌, >>=-ok, for_each}
use forge_sync.Effect.Within.{IsPreorder, Within-bind, Within-pure, Within-for_each}
use forge_sync.State.Db.{Db, Env, Sys}
use forge_sync.State.Conflicts.{same_conflict, add_conflict}
use forge_sync.State.Lookup.{add_conflict_recorded}
use forge_sync.State.Rules.{on_db, Within-add_conflict, Within-external}
use forge_sync.State.Extends.{Extends, Extends-rules}
use forge_sync.Matching.{external}
use forge_sync.Gitrefs.Policy.{Forge, github, forgejo, Refs, plan}
use forge_sync.Gitrefs.Policy.Effects.{deliver, conflict_at}
use forge_sync.Gitrefs.Policy.Convergence.{plan_converges}
use forge_sync.Gitrefs.Policy.Divergence.{conflict_at-IsDivergence}
use forge_sync.Gitrefs.Sync.Run.{Remote, ancestry}
use forge_sync.Gitrefs.Sync.Cycle.{SyncResult, Synchronizer, push_action, plan_from, carry_out}
use forge_sync.Gitrefs.Sync.Delivers.{GitPushes, refs_of, IsPushable, carry_out_delivers}

module _ {W : Type 0} (env : Env W) where
  conflicts_recorded :
      (cs : List Conflict) (s : Sys W)
      → (for_each (add_conflict env) cs s).0 ≡ ok tt
      → All (λ c. any (same_conflict c) (for_each (add_conflict env) cs s).1.db.conflicts ≡ true) cs
  unfolding for_each
  conflicts_recorded [] s h = tt
  conflicts_recorded (c ∷ cs) s h =
      let b = >>=-ok (add_conflict env c) _ s tt h in
      let later =
        Within-for_each (on_db Extends-rules env) (add_conflict env) cs
          (λ x. Within-add_conflict Extends-rules env x) in
      subst (λ p. All (λ x. any (same_conflict x) p.1.db.conflicts ≡ true) (c ∷ cs)) (sym b.2)
        (
          (later.at (add_conflict env c s).1).conflicts c (add_conflict_recorded env c s b.1),
          conflicts_recorded cs (add_conflict env c s).1 (sym (ap (λ p. p.0) b.2) ∙ h),
        )

-- A row that says of the repository that the forges hold these commits for the ref.
abbrev pub is_divergence : String → String → String → String → Conflict → Bool
is_divergence repository r g f x =
    x.kind == "git-ref-divergence"
    && x.repository == repository
    && x.object_key == r
    && x.github_state == g
    && x.forgejo_state == f

is_divergence-same :
    (repository r : String) (c : Conflict) (table : List Conflict)
    → c.kind ≡ "git-ref-divergence"
    → c.repository ≡ repository
    → c.object_key ≡ r
    → any (same_conflict c) table ≡ true
    → any (is_divergence repository r c.github_state c.forgejo_state) table ≡ true
is_divergence-same repository r c [] k l m h = ground arith
is_divergence-same repository r c (x ∷ table) k l m h =
    ground (arith, is_divergence-same repository r c table k l m)

-- The row of a conflict that was recorded.
find-recorded :
    (r : String) (cs table : List Conflict) (c : Conflict)
    → find (λ x. x.object_key == r) cs ≡ some c
    → All (λ x. any (same_conflict x) table ≡ true) cs
    → any (same_conflict c) table ≡ true
find-recorded r [] table c h k = absurd (ground arith)
find-recorded r (x ∷ cs) table c h k = elim (Bool-cases (x.object_key == r)) [
  | inl b ↦ let e : x ≡ c = ground arith in subst (λ o. any (same_conflict o) table ≡ true) e k.0
  | inr b ↦ find-recorded r cs table c (ground arith) k.1
]

module _ {W : Type 0} (y : Synchronizer W) (remote : W → String → Refs) (works : GitPushes y remote)
    (repository : String) (on_github on_forgejo : Remote) (apart : on_github.url ≢ on_forgejo.url)
    (dir : String) (result x : SyncResult) (s : Sys W) where
  open y use {env, host, unicode}

  preorder : IsPreorder (λ (a b : Sys W). Extends a.db b.db)
  preorder = on_db Extends-rules env

  still_recorded :
      (cs : List Conflict) {a b : Db}
      → Extends a b
      → All (λ c. any (same_conflict c) a.conflicts ≡ true) cs
      → All (λ c. any (same_conflict c) b.conflicts ≡ true) cs
  still_recorded [] h k = tt
  still_recorded (c ∷ cs) h k = (h.conflicts c k.0, still_recorded cs h k.1)

  plan-plan_from :
      (gh fj : Refs)
      → (plan_from y repository on_github on_forgejo dir gh fj s.world).0 ≡ ok result
      → plan repository (ancestry host unicode dir s.world) (λ ref. (env.now s.world).0) gh fj
        ≡ ok (result.actions, result.conflicts)
  unfolding plan_from
  plan-plan_from gh fj h = ground arith

  abbrev after : Sys W
  after = (carry_out y repository on_github on_forgejo dir result s).1

  carry_out_records :
      (carry_out y repository on_github on_forgejo dir result s).0 ≡ ok x
      → All (λ c. any (same_conflict c) after.db.conflicts ≡ true) result.conflicts
  unfolding carry_out ◌>>=◌
  carry_out_records e =
      let first = >>=-ok (for_each (add_conflict env) result.conflicts) _ s x e in
      let pushes =
        Within-bind preorder _ _
          (Within-for_each preorder
            (λ a. external (push_action y repository on_github on_forgejo dir a)) result.actions
            (λ a. Within-external Extends-rules env _))
          (λ t. Within-pure preorder result) in
      subst (λ p. All (λ c. any (same_conflict c) p.1.db.conflicts ≡ true) result.conflicts)
        (sym first.2)
        (still_recorded result.conflicts
          (pushes.at (for_each (add_conflict env) result.conflicts s).1)
          (conflicts_recorded env result.conflicts s first.1))

  -- The refs that the forges hold at the start.
  abbrev gh : Refs
  gh = refs_of remote on_github on_forgejo github s.world

  abbrev fj : Refs
  fj = refs_of remote on_github on_forgejo forgejo s.world

  -- The forges hold different commits for the ref, and a row of the table says so.
  abbrev Recorded : String → Type 0
  Recorded r =
      (g : String) × (f : String) × (lookup r gh ≡ some g)
      × (lookup r fj ≡ some f)
      × ((g == f) ≡ false)
      × (any (is_divergence repository r g f) after.db.conflicts ≡ true)

  -- If the plan was made with the refs that the forges hold, and the two loops that follow it in a run that is not
  -- dry succeed, then they leave every ref either with the same commit, or none, on both forges, or with a row
  -- among the conflicts, open or resolved, about this ref of this repository, with the two different commits
  -- that the forges held before the loops. Git is assumed to push what it is told to push; the URLs of
  -- the remotes differ, and no commit that is pushed has a colon in its name.
  pub sync_agrees :
      (plan_from y repository on_github on_forgejo dir
          (refs_of remote on_github on_forgejo github s.world)
          (refs_of remote on_github on_forgejo forgejo s.world)
          s.world).0
        ≡ ok result
      → All IsPushable result.actions
      → (carry_out y repository on_github on_forgejo dir result s).0 ≡ ok x
      → (r : String)
      → (lookup r (refs_of remote on_github on_forgejo github after.world)
          ≡ lookup r (refs_of remote on_github on_forgejo forgejo after.world))
        ⊎ Recorded r
  sync_agrees planned pushable e r = go (conflict_at r result.conflicts) refl
    where
      delivers :
          (f : Forge)
          → refs_of remote on_github on_forgejo f after.world
            ≡ deliver f result.actions (refs_of remote on_github on_forgejo f s.world)
      delivers =
          carry_out_delivers y remote works repository on_github on_forgejo apart dir result x s
            pushable e

      go :
          (found : Option Conflict)
          → conflict_at r result.conflicts ≡ found
          → (lookup r (refs_of remote on_github on_forgejo github after.world)
              ≡ lookup r (refs_of remote on_github on_forgejo forgejo after.world))
            ⊎ Recorded r
      go (some c) h =
          let d =
            conflict_at-IsDivergence repository (ancestry host unicode dir s.world)
              (λ ref. (env.now s.world).0) gh fj result.actions result.conflicts
              (plan-plan_from gh fj planned) r c h in
          inr (
            c.github_state,
            c.forgejo_state,
            d.on_github,
            d.on_forgejo,
            d.differ,
            is_divergence-same repository r c after.db.conflicts d.kind d.of_repository d.about
                (find-recorded r result.conflicts after.db.conflicts c h (carry_out_records e)),
          )
      go none h = inl (
          ap (lookup r) (delivers github)
          ∙ plan_converges repository (ancestry host unicode dir s.world)
              (λ ref. (env.now s.world).0) gh fj result.actions result.conflicts
              (plan-plan_from gh fj planned) r h
          ∙ sym (ap (lookup r) (delivers forgejo)))
