-- ===== src/Gitrefs/Sync/Fetch.antt =====
-- The waits of fetchWithRetry between its rounds.
use forge_sync.Base.{ℕ, zero, suc, ◌+◌, ◌*◌, ◌≤◌, String, Option, none, some, ◌≡◌, arith, nat_eq}
use forge_sync.Base.Text.{Unicode}
use forge_sync.Result.{Error, Result, ok, err}
use forge_sync.Gitrefs.Policy.{Forge}
use forge_sync.Gitrefs.Sync.Run.{
  Remote, Host, fetch, fetch_from, fetch_with_retry, pause, after_pause, after_fetch,
}

module _ {W : Type 0} (host : Host W) (unicode : Unicode) (git_dir : String) (forge : Forge)
    (remote : Remote) where
  module _ (spent : W → ℕ)
      (fetches : (w : W) → spent (fetch host unicode git_dir forge remote w).1 ≡ spent w)
      (sleeps : (n : ℕ) (w : W) → spent (host.sleep n w).1 ≤ spent w + n) where
    -- The waits before the rounds that are left.
    wait_total : ℕ → ℕ → ℕ
    wait_total zero attempt = 0
    wait_total (suc left) attempt = attempt * 5000000000 + wait_total left (suc attempt)

    pause_waits :
        (attempt : ℕ) (w : W)
        → spent (pause host unicode git_dir forge remote attempt w).1
          ≤ spent w + attempt * 5000000000
    unfolding pause
    pause_waits attempt w = ground (arith, sleeps (attempt * 5000000000) w)

    after_fetch_waits :
        (bound : ℕ) (again : Error → W → Result (Unit {0}) × W) (r : Result (Unit {0})) (w : W)
        → ((e : Error) → spent (again e w).1 ≤ spent w + bound)
        → spent (after_fetch host unicode git_dir forge remote again r w).1 ≤ spent w + bound
    after_fetch_waits bound again (ok t) w h = ground arith
    after_fetch_waits bound again (err e) w h = ground (arith, h e)

    fetch_from_waits :
        (left attempt : ℕ) (last : Error) (w : W)
        → spent (fetch_from host unicode git_dir forge remote left attempt last w).1
          ≤ spent w + wait_total left attempt
    unfolding fetch_from wait_total
    fetch_from_waits zero attempt last w = ground arith
    fetch_from_waits (suc left) attempt last w =
        round (λ e u. fetch_from_waits left (suc attempt) e u)
          (pause host unicode git_dir forge remote attempt w).0
          (pause host unicode git_dir forge remote attempt w).1 (pause_waits attempt w)
      where
        again : Error → W → Result (Unit {0}) × W
        again = fetch_from host unicode git_dir forge remote left (suc attempt)

        round :
            ((e : Error) (u : W)
              → spent (fetch_from host unicode git_dir forge remote left (suc attempt) e u).1
                ≤ spent u + wait_total left (suc attempt))
            → (o : Option Error) (w' : W) → spent w' ≤ spent w + attempt * 5000000000
            → spent
                (after_pause host unicode git_dir forge remote
                  (λ u.
                    after_fetch host unicode git_dir forge remote again
                      (fetch host unicode git_dir forge remote u).0
                      (fetch host unicode git_dir forge remote u).1)
                  o
                  w').1
              ≤ spent w + (attempt * 5000000000 + wait_total left (suc attempt))
        round ih none w' h =
            let f = fetch host unicode git_dir forge remote w' in
            let a =
              after_fetch_waits (wait_total left (suc attempt)) again f.0 f.1 (λ e. ih e f.1) in
            ground (arith, a, fetches w')
        round ih (some e) w' h = ground arith

    -- fetchWithRetry waits at most 15 seconds in all, if a timer waits no longer than it is set to and nothing
    -- else waits.
    pub fetch_with_retry_waits :
        (w : W)
        → spent (fetch_with_retry host unicode git_dir forge remote w).1 ≤ spent w + 15000000000
    unfolding fetch_with_retry wait_total
    fetch_with_retry_waits w = fetch_from_waits 3 0 "" w
