-- ===== src/Gitrefs/Sync/DryRun.antt =====
-- A dry run of Sync reads and plans, and neither pushes nor records.
use forge_sync.Base.{
  ℕ, String, ◌<>◌, Bool, true, false, Option, none, some, List, ◌∷◌, ◌≡◌, ◌*◌, refl, ◌∙◌, ◌==◌,
  string_eq, if◌then◌else◌, ◌&&◌, zero, suc, nat_eq,
}
use forge_sync.Result.{Error, Result, ok, err}
use forge_sync.Effect.{Exec}
use forge_sync.Effect.Within.{
  IsPreorder, Within, Within-bind, Within-wrapped, Within-pure, Within-lift, within_rules,
}
use forge_sync.Gitrefs.Policy.{Forge, Refs}
use forge_sync.Gitrefs.Sync.Run.{
  Remote, Command, Host, GitError, dir_of, askpass_body, plain, with_askpass, executed,
  executed_after, run, git, fetch, fetch_from, fetch_with_retry, pause, after_pause, after_fetch,
  transient_git_failure, local_refs, no_remote,
}
use forge_sync.Gitrefs.Sync.Cycle.{Synchronizer, plan_from, plan_in, sync_in, sync}
use forge_sync.State.Db.{Sys}
use forge_sync.Matching.{external}

-- `git --git-dir dir push ...`
abbrev pub is_push : List String → Bool
is_push (flag ∷ (dir ∷ (name ∷ rest))) = flag == "--git-dir" && name == "push"
is_push _ = false

-- Nothing but a push moves the refs of a remote, which `remote` reads by URL.
pub record OnlyPushes {W : Type 0} (host : Host W) (remote : W → String → Refs) : Type 0 where
  pub executed :
      (c : Command) (w : W) → is_push c.arguments ≡ false → remote (host.execute c w).1 ≡ remote w
  pub written :
      (name body : String) (mode : ℕ) (w : W)
      → remote (host.write_file name body mode w).1 ≡ remote w
  pub made : (name : String) (w : W) → remote (host.mkdir_temp name w).1 ≡ remote w
  pub owned : (name : String) (mode : ℕ) (w : W) → remote (host.chmod name mode w).1 ≡ remote w
  pub removed : (name : String) (w : W) → remote (host.remove_all name w) ≡ remote w
  pub slept : (n : ℕ) (w : W) → remote (host.sleep n w).1 ≡ remote w

module _ {W : Type 0} (y : Synchronizer W) (remote : W → String → Refs)
    (only : OnlyPushes y.host remote) where
  open y use {env, host, unicode}

  abbrev Unmoved : W → W → Type 0
  Unmoved w w' = remote w' ≡ remote w

  unmoved : IsPreorder Unmoved
  unmoved = record { stays = λ w. refl; then_ = λ s t u p q. q ∙ p }

  executed-Unmoved :
      (c : Command) (w : W) → is_push c.arguments ≡ false → Unmoved w (executed host unicode c w).1
  unfolding executed
  executed-Unmoved c w h = only.executed c w h

  after-Unmoved :
      (c : Command) (r : Result (Unit {0})) (w : W)
      → is_push c.arguments ≡ false
      → Unmoved w (executed_after host unicode c r w).1
  after-Unmoved c (ok t) w h = executed-Unmoved c w h
  after-Unmoved c (err e) w h = refl

  run-Unmoved :
      (dir : String) (target : Remote) (arguments : List String) (w : W)
      → is_push arguments ≡ false
      → Unmoved w (run host unicode dir target arguments w).1
  unfolding run
  run-Unmoved dir target arguments w h = go (target.token == "")
    where
      c : Command
      c = plain host unicode dir arguments

      askpass : String
      askpass = dir_of dir <> "/askpass.sh"

      with_script : (String × Option GitError) × W
      with_script =
          let saved = host.write_file askpass askpass_body 448 w in
          executed_after host unicode (with_askpass host unicode target askpass c) saved.0 saved.1

      go : (b : Bool) → Unmoved w (if b then executed host unicode c w else with_script).1
      go true = executed-Unmoved c w h
      go false =
          after-Unmoved (with_askpass host unicode target askpass c) _ _ h
          ∙ only.written askpass askpass_body 448 w

  Within-git :
      (dir : String) (target : Remote) (arguments : List String)
      → is_push arguments ≡ false
      → Within Unmoved (git host unicode dir target arguments)
  unfolding git
  Within-git dir target arguments h = record { at = λ w. run-Unmoved dir target arguments w h }

  Within-fetch :
      (dir : String) (forge : Forge) (target : Remote)
      → Within Unmoved (fetch host unicode dir forge target)
  unfolding fetch string_eq
  Within-fetch dir forge target =
      Within-bind unmoved _ _ (Within-wrapped _ _ (Within-git dir target _ refl))
        (λ output. Within-pure unmoved tt)

  pause-Unmoved :
      (dir : String) (forge : Forge) (target : Remote) (attempt : ℕ) (w : W)
      → Unmoved w (pause host unicode dir forge target attempt w).1
  unfolding pause
  pause-Unmoved dir forge target attempt w = go (attempt == 0)
    where
      go : (b : Bool) → Unmoved w (if b then (none, w) else host.sleep (attempt * 5000000000) w).1
      go true = refl
      go false = only.slept _ w

  module _ (dir : String) (forge : Forge) (target : Remote) where
    after_fetch-Unmoved :
        (again : Error → W → Result (Unit {0}) × W) (r : Result (Unit {0})) (w : W)
        → ((e : Error) (w' : W) → Unmoved w' (again e w').1)
        → Unmoved w (after_fetch host unicode dir forge target again r w).1
    after_fetch-Unmoved again (ok t) w h = refl
    after_fetch-Unmoved again (err e) w h = go (transient_git_failure e)
      where
        go : (b : Bool) → Unmoved w (if b then again e w else (err e, w)).1
        go true = h e w
        go false = refl

    after_pause-Unmoved :
        (round : W → Result (Unit {0}) × W) (o : Option Error) (w : W)
        → ((w' : W) → Unmoved w' (round w').1)
        → Unmoved w (after_pause host unicode dir forge target round o w).1
    after_pause-Unmoved round none w h = h w
    after_pause-Unmoved round (some e) w h = refl

    fetch_from-Unmoved :
        (left attempt : ℕ) (last : Error) (w : W)
        → Unmoved w (fetch_from host unicode dir forge target left attempt last w).1
    unfolding fetch_from
    fetch_from-Unmoved zero attempt last w = refl
    fetch_from-Unmoved (suc left) attempt last w =
        after_pause-Unmoved _ (pause host unicode dir forge target attempt w).0 _ (λ w'.
          after_fetch-Unmoved _ (fetch host unicode dir forge target w').0 _
            (λ e u. fetch_from-Unmoved left (suc attempt) e u)
          ∙ (Within-fetch dir forge target).at w')
        ∙ pause-Unmoved dir forge target attempt w

    Within-fetch_with_retry : Within Unmoved (fetch_with_retry host unicode dir forge target)
    unfolding fetch_with_retry
    Within-fetch_with_retry = record { at = λ w. fetch_from-Unmoved 3 0 "" w }

  Within-local_refs :
      (dir : String) (forge : Forge) → Within Unmoved (local_refs host unicode dir forge)
  unfolding local_refs string_eq
  Within-local_refs dir forge =
      Within-bind unmoved _ _ (Within-git dir no_remote _ refl) (λ output. Within-lift unmoved _)

  module _ (repository : String) (on_github on_forgejo : Remote) where
    Within-plan_from :
        (dir : String) (gh fj : Refs)
        → Within Unmoved (plan_from y repository on_github on_forgejo dir gh fj)
    unfolding plan_from
    Within-plan_from dir gh fj = record { at = λ w. refl }

    Within-plan_in :
        (workspace dir : String)
        → Within Unmoved (plan_in y repository on_github on_forgejo workspace dir)
    unfolding plan_in string_eq
    Within-plan_in workspace dir =
        Within-bind unmoved _ _ (Within-wrapped _ _ (Within-git workspace no_remote _ refl))
          (λ output.
            search
              (within_rules, unmoved, Within-fetch_with_retry, Within-local_refs, Within-plan_from)
              depth 9)

    abbrev Untouched : Sys W → Sys W → Type 0
    Untouched s t = (t.db ≡ s.db) × (remote t.world ≡ remote s.world)

    untouched : IsPreorder Untouched
    untouched = record { stays = λ s. (refl, refl); then_ = λ s t u p q. (q.0 ∙ p.0, q.1 ∙ p.1) }

    Within-external : {A : Type 0} (m : Exec W A) → Within Unmoved m → Within Untouched (external m)
    unfolding external
    Within-external m h = record { at = λ s. (refl, h.at s.world) }

    sync_in-Untouched :
        (workspace : String)
        → Within Untouched (sync_in y repository on_github on_forgejo true workspace)
    unfolding sync_in
    sync_in-Untouched workspace =
        Within-bind untouched _ _
          (Within-external _ (record { at = λ w. only.owned workspace 448 w }))
          (λ t.
            Within-bind untouched _ _ (Within-external _ (Within-plan_in workspace _))
              (λ result. Within-pure untouched result))

    -- A dry run of Sync leaves the database and the refs of every remote as they were, whether it succeeds
    -- or fails, provided that nothing but a push moves the refs of a remote.
    pub sync_dry_run :
        (s : Sys W)
        → ((sync y repository on_github on_forgejo true s).1.db ≡ s.db)
          × (remote (sync y repository on_github on_forgejo true s).1.world ≡ remote s.world)
    unfolding sync
    sync_dry_run s =
        let w = Within-bind untouched _ _ (Within-wrapped _ _ (Within-lift untouched _)) (λ t.
          Within-bind untouched _ _ (Within-wrapped _ _ (Within-lift untouched _)) (λ u.
            Within-bind untouched _ _
              (Within-external _ (record { at = λ v. only.made "forge-sync-git-" v }))
              (λ workspace. record {
                at = λ v.
                    let p = (sync_in-Untouched workspace).at v in
                    (p.0, only.removed workspace _ ∙ p.1);
              }))) in
        w.at s
