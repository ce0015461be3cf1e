-- ===== src/Gitrefs/Sync/Delivers.antt =====
-- What a run of Sync leaves on the two forges and in the database.
use forge_sync.Base.{
  ℕ, String, ◌<>◌, Bool, true, false, Option, none, some, List, [], ◌∷◌, ◌≡◌, ◌≢◌, refl, sym, ap,
  ◌∙◌, arith, ◌==◌, string_eq, if◌then◌else◌, All,
}
use forge_sync.Base.Dict.{insert}
use forge_sync.Base.Text.{cut_at}
use forge_sync.Model.{Conflict}
use forge_sync.Result.{Result, ok, err}
use forge_sync.Effect.{◌>>=◌, >>=-ok, for_each}
use forge_sync.Effect.Within.{IsPreorder, Within, Within-bind, Within-wrapped, Within-for_each}
use forge_sync.State.Db.{Db, Sys, stamp, time_now, statement}
use forge_sync.State.Conflicts.{add_conflict}
use forge_sync.Matching.{external}
use forge_sync.Gitrefs.Policy.{Forge, github, forgejo, Action, Refs}
use forge_sync.Gitrefs.Policy.Effects.{deliver, is_forge}
use forge_sync.Gitrefs.Sync.Run.{
  Remote, Command, ran, GitError, dir_of, askpass_body, plain, with_askpass, executed,
  executed_after, run, git,
}
use forge_sync.Gitrefs.Sync.Cycle.{SyncResult, Synchronizer, push_action, target_of, carry_out}

-- What git and the system do to the refs of the remotes, which `remote` reads by URL: a push that ends well
-- has set the ref, and neither a file, the clock nor the database moves one.
pub record GitPushes {W : Type 0} (y : Synchronizer W) (remote : W → String → Refs) : Type 0 where
  pub pushed :
      (c : Command) (w : W) (dir url spec sha ref : String)
      → c.arguments ≡ "--git-dir" ∷ dir ∷ "push" ∷ "--porcelain" ∷ url ∷ spec ∷ []
      → cut_at b':' spec ≡ some (sha, ref)
      → (y.host.execute c w).0.context_error ≡ none
      → (y.host.execute c w).0.exit ≡ ran
      → (u : String)
      → remote (y.host.execute c w).1 u
        ≡ (if u == url then insert ref sha (remote w u) else remote w u)
  pub written :
      (name body : String) (mode : ℕ) (w : W) (u : String)
      → remote (y.host.write_file name body mode w).1 u ≡ remote w u
  pub told : (w : W) (u : String) → remote (y.env.now w).1 u ≡ remote w u
  pub queried : (w : W) (u : String) → remote (y.env.sqlite w).1 u ≡ remote w u

-- The refs of a forge, where `remote` reads the refs at a URL.
abbrev pub refs_of : {W : Type 0} → (W → String → Refs) → Remote → Remote → Forge → W → Refs
refs_of remote on_github on_forgejo f w = remote w (target_of on_github on_forgejo f).url

-- Git can tell the commit of an action from its ref: the commit has no colon.
abbrev pub IsPushable : Action → Type 0
IsPushable a = cut_at b':' (a.sha <> ":" <> a.ref) ≡ some (a.sha, a.ref)

module _ {W : Type 0} (y : Synchronizer W) (remote : W → String → Refs)
    (works : GitPushes y remote) where
  open y use {env, host, unicode}

  executed-pushes :
      (c : Command) (w : W) (dir url spec sha ref : String)
      → c.arguments ≡ "--git-dir" ∷ dir ∷ "push" ∷ "--porcelain" ∷ url ∷ spec ∷ []
      → cut_at b':' spec ≡ some (sha, ref)
      → (executed host unicode c w).0.1 ≡ none
      → (u : String)
      → remote (executed host unicode c w).1 u
        ≡ (if u == url then insert ref sha (remote w u) else remote w u)
  unfolding executed
  executed-pushes c w dir url spec sha ref h k e u =
      works.pushed c w dir url spec sha ref h k (ground arith) (ground arith) u

  after-pushes :
      (c : Command) (written : Result (Unit {0})) (w : W) (dir url spec sha ref : String)
      → c.arguments ≡ "--git-dir" ∷ dir ∷ "push" ∷ "--porcelain" ∷ url ∷ spec ∷ []
      → cut_at b':' spec ≡ some (sha, ref)
      → (executed_after host unicode c written w).0.1 ≡ none
      → (u : String)
      → remote (executed_after host unicode c written w).1 u
        ≡ (if u == url then insert ref sha (remote w u) else remote w u)
  after-pushes c (ok t) w dir url spec sha ref h k e u =
      executed-pushes c w dir url spec sha ref h k e u
  after-pushes c (err x) w dir url spec sha ref h k e u = ground arith

  abbrev push_arguments : String → String → String → List String
  push_arguments dir url spec = "--git-dir" ∷ dir ∷ "push" ∷ "--porcelain" ∷ url ∷ spec ∷ []

  run-pushes :
      (target : Remote) (w : W) (dir url spec sha ref : String)
      → cut_at b':' spec ≡ some (sha, ref)
      → (run host unicode dir target (push_arguments dir url spec) w).0.1 ≡ none
      → (u : String)
      → remote (run host unicode dir target (push_arguments dir url spec) w).1 u
        ≡ (if u == url then insert ref sha (remote w u) else remote w u)
  unfolding run
  run-pushes target w dir url spec sha ref k e u = go (target.token == "") e
    where
      c : Command
      c = plain host unicode dir (push_arguments dir url spec)

      askpass : String
      askpass = dir_of dir <> "/askpass.sh"

      with_script : (String × Option GitError) × W
      with_script =
          let saved = host.write_file askpass askpass_body 448 w in
          executed_after host unicode (with_askpass host unicode target askpass c) saved.0 saved.1

      go :
          (b : Bool)
          → (if b then executed host unicode c w else with_script).0.1 ≡ none
          → remote (if b then executed host unicode c w else with_script).1 u
            ≡ (if u == url then insert ref sha (remote w u) else remote w u)
      go true e' = executed-pushes c w dir url spec sha ref refl k e' u
      go false e' =
          after-pushes (with_askpass host unicode target askpass c) _ _ dir url spec sha ref refl k
            e' u
          ∙ ap (λ refs. if u == url then insert ref sha refs else refs)
              (works.written askpass askpass_body 448 w u)

  module _ (repository : String) (on_github on_forgejo : Remote)
      (apart : on_github.url ≢ on_forgejo.url) where
    abbrev held : Forge → W → Refs
    held f w = refs_of remote on_github on_forgejo f w

    url_of-is_forge :
        (f g : Forge)
        → ((target_of on_github on_forgejo f).url == (target_of on_github on_forgejo g).url)
          ≡ is_forge f g
    url_of-is_forge github github = ground arith
    url_of-is_forge github forgejo = ground arith
    url_of-is_forge forgejo github = ground arith
    url_of-is_forge forgejo forgejo = ground arith

    abbrev ran_push : String → Action → W → (String × Option GitError) × W
    ran_push dir a w =
        let target = target_of on_github on_forgejo a.to in
        run host unicode dir target (push_arguments dir target.url (a.sha <> ":" <> a.ref)) w

    push_action-run :
        (dir : String) (a : Action) (w : W)
        → (push_action y repository on_github on_forgejo dir a w).0 ≡ ok tt
        → ((ran_push dir a w).0.1 ≡ none)
          × ((push_action y repository on_github on_forgejo dir a w).1 ≡ (ran_push dir a w).1)
    unfolding push_action git ◌>>=◌
    push_action-run dir a w e = ground arith

    push_action-delivers :
        (dir : String) (a : Action) (w : W)
        → IsPushable a
        → (push_action y repository on_github on_forgejo dir a w).0 ≡ ok tt
        → (f : Forge)
        → held f (push_action y repository on_github on_forgejo dir a w).1
          ≡ deliver f (a ∷ []) (held f w)
    unfolding deliver
    push_action-delivers dir a w k e f =
        let r = push_action-run dir a w e in
        let to = target_of on_github on_forgejo a.to in
        ap (held f) r.1
        ∙ run-pushes to w dir to.url (a.sha <> ":" <> a.ref) a.sha a.ref k r.0
            (target_of on_github on_forgejo f).url
        ∙ ap (λ b. if b then insert a.ref a.sha (held f w) else held f w) (url_of-is_forge f a.to)

    pushes-deliver :
        (dir : String) (actions : List Action) (s : Sys W)
        → All IsPushable actions
        → (for_each
            (λ a. external (push_action y repository on_github on_forgejo dir a))
            actions
            s).0
          ≡ ok tt
        → (f : Forge)
        → held f
            (for_each
              (λ a. external (push_action y repository on_github on_forgejo dir a))
              actions
              s).1.world
          ≡ deliver f actions (held f s.world)
    unfolding for_each deliver external ◌>>=◌
    pushes-deliver dir [] s k e f = refl
    pushes-deliver dir (a ∷ actions) s k e f =
        let b = >>=-ok (external (push_action y repository on_github on_forgejo dir a)) _ s tt e in
        ap (λ p. held f p.1.world) b.2
        ∙ pushes-deliver dir actions _ k.1 (sym (ap (λ p. p.0) b.2) ∙ e) f
        ∙ ap (deliver f actions) (push_action-delivers dir a s.world k.0 b.1 f)

    stamp-stays : (t : ℕ) (s : Sys W) (f : Forge) → held f (stamp env t s).1.world ≡ held f s.world
    unfolding stamp time_now
    stamp-stays t s f = ground (arith, works.told s.world (target_of on_github on_forgejo f).url)

    statement-stays :
        {A : Type 0} (m : Db → Result (A × Db)) (s : Sys W) (f : Forge)
        → held f (statement env m s).1.world ≡ held f s.world
    unfolding statement
    statement-stays m s f =
        ground (arith, works.queried s.world (target_of on_github on_forgejo f).url)

    Within-refs : IsPreorder (λ (s t : Sys W). (f : Forge) → held f t.world ≡ held f s.world)
    Within-refs = record { stays = λ s f. refl; then_ = λ s t u p q f. q f ∙ p f }

    conflicts-stay :
        (cs : List Conflict)
        → Within
            (λ (s t : Sys W). (f : Forge) → held f t.world ≡ held f s.world)
            (for_each (add_conflict env) cs)
    unfolding add_conflict
    conflicts-stay cs = Within-for_each Within-refs (add_conflict env) cs (λ c.
        Within-bind Within-refs _ _ (record { at = λ s f. stamp-stays c.created_at s f })
          (λ t. Within-wrapped _ _ (record { at = λ s f. statement-stays _ s f })))

    -- If the loops of a run that is not dry succeed, each forge holds the refs that it held before with the
    -- pushes of the plan carried out on them in order, provided that git pushes what it is told to push, that
    -- the URLs of the remotes differ, and that no commit that is pushed has a colon in its name.
    pub carry_out_delivers :
        (dir : String) (result x : SyncResult) (s : Sys W)
        → All IsPushable result.actions
        → (carry_out y repository on_github on_forgejo dir result s).0 ≡ ok x
        → (f : Forge)
        → refs_of remote on_github on_forgejo f
            (carry_out y repository on_github on_forgejo dir result s).1.world
          ≡ deliver f result.actions (refs_of remote on_github on_forgejo f s.world)
    unfolding carry_out ◌>>=◌
    carry_out_delivers dir result x s k e f =
        let first = >>=-ok (for_each (add_conflict env) result.conflicts) _ s x e in
        let second =
          >>=-ok
            (for_each (λ a. external (push_action y repository on_github on_forgejo dir a))
              result.actions)
            _ _ x (sym (ap (λ p. p.0) first.2) ∙ e) in
        ap (λ p. held f p.1.world) first.2
        ∙ ap (λ p. held f p.1.world) second.2
        ∙ pushes-deliver dir result.actions _ k second.1 f
        ∙ ap (deliver f result.actions) ((conflicts-stay result.conflicts).at s f)
