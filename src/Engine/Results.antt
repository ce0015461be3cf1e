-- ===== src/Engine/Results.antt =====
-- What the assembled engine keeps and records.
use forge_sync.Base.{
  ℕ, String, Bool, true, ◌&&◌, Option, none, List, [], ◌∷◌, ◌≡◌, refl, sym, ap, ◌∙◌, arith, ◌==◌,
  string_eq, nat_eq, if◌then◌else◌, any, filter, length,
}
use forge_sync.Base.Int.{ℤ, int_eq}
use forge_sync.Model.{Time}
use forge_sync.Result.{Error, Result, ok, err}
use forge_sync.Effect.{Exec, pure, raise, wrapped, ◌>>=◌, >>=-ok}
use forge_sync.State.Db.{Db, Env, Sys, Run, statement, time_now}
use forge_sync.State.Rules.{OnDb}
use forge_sync.State.Runs.{
  is_running, final_status, set_completed, update_run, begin_run, complete_run,
}
use forge_sync.State.Extends.{Extends, Extends-rules}
use forge_sync.State.Rows.{KeepsRows, KeepsRows-rules}
use forge_sync.State.Lookup.{statement-ran}
use forge_sync.Webhooks.Server.{Request, Crypto, Server, serve_http}
use forge_sync.Webhooks.Server.Laws.{serve_http-once, with_processor}
use forge_sync.Engine.{Engine}
use forge_sync.Engine.Cycle.{Progress, or_all, complete, run_cycle, reconcile, process_webhook}
use forge_sync.Engine.Keeps.{reconcile-keeps, Within-process_webhook}
use forge_sync.Engine.Assembly.{Setup, engine, parts-keep}

module _ {W Bytes : Type 0} (setup : Setup W Bytes) where
  -- The webhook server over the engine.
  abbrev pub wired : Server W → Server W
  wired server = with_processor (process_webhook (engine setup)) server

  -- Whatever git and the forges answer and whether it fails or not, a cycle of the assembled program resolves
  -- and changes no conflict that was recorded, leaves the deliveries as they are, and every repository, issue,
  -- pull request, comment and release whose GitHub id was mapped still has a mapping. The rest of a
  -- mapping, such as its hash and its Forgejo id, may be rewritten.
  pub cycle_keeps_records :
      (scope : String) (dry_run : Bool) (s : Sys W)
      → Extends s.db (reconcile (engine setup) scope dry_run s).1.db
        × KeepsRows s.db (reconcile (engine setup) scope dry_run s).1.db
  cycle_keeps_records scope dry_run s = (
    reconcile-keeps Extends-rules (engine setup) (parts-keep setup Extends-rules) scope dry_run s,
    reconcile-keeps KeepsRows-rules (engine setup) (parts-keep setup KeepsRows-rules) scope dry_run
        s,
  )

  -- In the assembled program, a delivery that was answered with 202 is never reconciled a second time: in
  -- every state that keeps what the first answer recorded, serving the request again gives the status and
  -- the state that the server with any other processor gives.
  pub engine_once :
      (crypto : Crypto) (server : Server W) (p : String → String → List ℕ → Exec (Sys W) (Unit {0}))
      (request : Request) (s t : Sys W)
      → (serve_http crypto setup.env (wired server) request s).0 ≡ 202
      → OnDb Extends (serve_http crypto setup.env (wired server) request s).1 t
      → serve_http crypto setup.env (wired server) request t
        ≡ serve_http crypto setup.env (with_processor p server) request t
  engine_once crypto server p request s t h x =
      serve_http-once crypto setup.env (wired server)
        (Within-process_webhook Extends-rules (engine setup) (parts-keep setup Extends-rules)) p
        request s t h x

-- A run of the table with the id and the status.
abbrev pub has_status : ℤ → String → List Run → Bool
has_status id status = any (λ r. r.id == id && r.status == status)

set_completed-status :
    (id : ℤ) (now : Time) (summary : String) (e : Option Error) (rows : List Run)
    → length (filter (is_running id) rows) ≡ 1
    → has_status id (final_status e) (set_completed id now summary e rows) ≡ true
unfolding set_completed
set_completed-status id now summary e [] h = ground arith
set_completed-status id now summary e (r ∷ rows) h =
    ground (arith, set_completed-status id now summary e rows)

module _ {W : Type 0} (env : Env W) where
  update_run-status :
      (id : ℤ) (now : Time) (summary : String) (e : Option Error) (db db' : Db) (count : ℕ)
      → update_run id now summary e db ≡ ok (count, db')
      → count ≡ 1
      → has_status id (final_status e) db'.runs ≡ true
  unfolding update_run
  update_run-status id now summary e db db' count h k =
      ground (arith, set_completed-status id now summary e db.runs)

  wrapped-statement-ran :
      {A : Type 0} (context : String) (f : Db → Result (A × Db)) (s : Sys W) (a : A)
      → (wrapped context (statement env f) s).0 ≡ ok a
      → f s.db ≡ ok (a, (wrapped context (statement env f) s).1.db)
  unfolding ◌>>=◌
  wrapped-statement-ran context f s a h = statement-ran env s f a (ground arith)

  counted-one :
      (count : ℕ) (s : Sys W)
      → ((if count == 1 then pure tt else raise "reconciliation run is absent or already completed")
          s).0
        ≡ ok tt
      → (count ≡ 1)
        × ((if count == 1
                then pure tt
                else raise "reconciliation run is absent or already completed")
              s
            ≡ (ok tt, s))
  unfolding ◌>>=◌ nat_eq
  counted-one count s h = ground arith

  -- A call of CompleteRun that succeeds has given the run its final status.
  complete_run-status :
      (id : ℤ) (summary : String) (e : Option Error) (s : Sys W)
      → (complete_run env id summary e s).0 ≡ ok tt
      → has_status id (final_status e) (complete_run env id summary e s).1.db.runs ≡ true
  unfolding complete_run
  complete_run-status id summary e s h =
      let first = >>=-ok (time_now env) _ s tt h in
      let second =
        >>=-ok
          (wrapped "complete reconciliation run" (statement env (update_run id first.0 summary e)))
          _ (time_now env s).1 tt (sym (ap (λ p. p.0) first.2) ∙ h) in
      let third =
        counted-one second.0 _ (sym (ap (λ p. p.0) second.2) ∙ sym (ap (λ p. p.0) first.2) ∙ h) in
      ap (λ p. has_status id (final_status e) p.1.db.runs) (first.2 ∙ second.2 ∙ third.1)
      ∙ update_run-status id first.0 summary e _ _ second.0
          (wrapped-statement-ran _ (update_run id first.0 summary e) _ second.0 second.1) third.0

module _ {W : Type 0} (engine : Engine W) where
  complete-status :
      (run : ℤ) (outcome : Result (Unit {0})) (p : Progress W)
      → (complete engine run outcome p).0.1 ≡ ok tt
      → has_status run "succeeded" (complete engine run outcome p).1.db.runs ≡ true
  unfolding complete
  complete-status run (ok t) p h =
      complete_run-status engine.env run (engine.marshal_report p.report) none p.sys h
  complete-status run (err e) p h = ground arith

  run_cycle-status :
      (scope : String) (dry_run : Bool) (begun : Result ℤ) (s : Sys W)
      → (run_cycle engine scope dry_run begun s).0.1 ≡ ok tt
      → (run : ℤ) × (begun ≡ ok run)
        × (has_status run "succeeded" (run_cycle engine scope dry_run begun s).1.db.runs ≡ true)
  unfolding run_cycle
  run_cycle-status scope dry_run (err e) s h = ground arith
  run_cycle-status scope dry_run (ok run) s h = (run, refl, complete-status run _ _ h)

  -- A cycle that reports success has begun a run, and leaves it in the table marked as succeeded.
  pub reconcile_recorded :
      (scope : String) (dry_run : Bool) (s : Sys W)
      → (reconcile engine scope dry_run s).0.1 ≡ ok tt
      → (run : ℤ) × ((begin_run engine.env (or_all scope) dry_run s).0 ≡ ok run)
        × (has_status run "succeeded" (reconcile engine scope dry_run s).1.db.runs ≡ true)
  unfolding reconcile
  reconcile_recorded scope dry_run s h =
      run_cycle-status (or_all scope) dry_run (begin_run engine.env (or_all scope) dry_run s).0
        (begin_run engine.env (or_all scope) dry_run s).1 h
