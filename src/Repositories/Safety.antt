-- ===== src/Repositories/Safety.antt =====
-- What Discover refuses: namespaces that are not allowed.
use forge_sync.Base.{String, Bool, true, List, [], ◌∷◌, ◌≡◌, sym, ap, ◌∙◌, arith, string_eq, All}
use forge_sync.Result.{ok}
use forge_sync.Effect.{◌>>=◌, >>=-ok, for_each}
use forge_sync.Repositories.{Reconciler, Tally, namespace_allowed}
use forge_sync.Repositories.Cycle.{discover_namespace, discover}

module _ {W : Type 0} (r : Reconciler W) where
  namespace-allowed :
      (dry_run : Bool) (namespace : String) (t : Tally W)
      → (discover_namespace r dry_run namespace t).0 ≡ ok tt
      → namespace_allowed namespace ≡ true
  unfolding discover_namespace ◌>>=◌
  namespace-allowed dry_run namespace t h = ground arith

  namespaces-allowed :
      (dry_run : Bool) (namespaces : List String) (t : Tally W)
      → (for_each (discover_namespace r dry_run) namespaces t).0 ≡ ok tt
      → All (λ n. namespace_allowed n ≡ true) namespaces
  unfolding for_each
  namespaces-allowed dry_run [] t h = tt
  namespaces-allowed dry_run (n ∷ rest) t h =
      let b = >>=-ok (discover_namespace r dry_run n) _ t tt h in
      (
        namespace-allowed dry_run n t b.1,
        namespaces-allowed dry_run rest _ (sym (ap (λ p. p.0) b.2) ∙ h),
      )

  -- Discover succeeds only if every namespace is one of the two that the program may touch.
  pub discover_allowed :
      (dry_run : Bool) (namespaces : List String) (t : Tally W)
      → (discover r dry_run namespaces t).0 ≡ ok tt
      → All (λ n. namespace_allowed n ≡ true) namespaces
  unfolding discover
  discover_allowed dry_run namespaces t h =
      let b = >>=-ok (for_each (discover_namespace r dry_run) namespaces) _ t tt h in
      namespaces-allowed dry_run namespaces t b.1
