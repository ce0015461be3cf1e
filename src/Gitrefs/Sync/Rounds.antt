-- ===== src/Gitrefs/Sync/Rounds.antt =====
-- The rounds of fetchWithRetry: how many there are, and what ends them.
use forge_sync.Base.{
  ◌⊎◌, ℕ, ◌+◌, ◌≤◌, String, Bool, true, false, Option, none, some, List, [], ◌∷◌, ◌≡◌, nat_eq,
  length, All,
}
use forge_sync.Base.Text.{Unicode}
use forge_sync.Result.{Error, Result, ok, err}
use forge_sync.Gitrefs.Policy.{Forge}
use forge_sync.Gitrefs.Sync.Run.{Remote, Host, fetch, fetch_with_retry, transient_git_failure}

-- The outcome asks for another round.
abbrev pub is_retried : Result (Unit {0}) → Bool
is_retried (ok t) = false
is_retried (err e) = transient_git_failure e

-- All but the first.
abbrev pub earlier : List (Result (Unit {0})) → List (Result (Unit {0}))
earlier [] = []
earlier (r ∷ rest) = rest

-- The first, which was added last.
abbrev pub newest : List (Result (Unit {0})) → Option (Result (Unit {0}))
newest [] = none
newest (r ∷ rest) = some r

module _ {W : Type 0} (host : Host W) (unicode : Unicode) (git_dir : String) (forge : Forge)
    (remote : Remote) where
  AllRetried : List (Result (Unit {0})) → Type 0
  AllRetried rs = All (λ r. is_retried r ≡ true) rs

  module _ (log : W → List (Result (Unit {0})))
      (fetches : (w : W)
        → log (fetch host unicode git_dir forge remote w).1
          ≡ (fetch host unicode git_dir forge remote w).0 ∷ log w)
      (sleeps : (n : ℕ) (w : W) → log (host.sleep n w).1 ≡ log w) where
    -- What rounds left to make end with: at most so many more outcomes, each but the last retried.
    Fair : ℕ → W → W → Type 0
    Fair left w w' = (length (log w') ≤ left + length (log w)) × AllRetried (earlier (log w'))

    -- Why the rounds that were left ended: the result is that of the newest fetch and asks for no other, all rounds
    -- were made, or a timer was interrupted.
    Ended : ℕ → W → Result (Unit {0}) × W → Type 0
    Ended left w p =
        ((newest (log p.1) ≡ some p.0) × (is_retried p.0 ≡ false))
        ⊎ (length (log p.1) ≡ left + length (log w))
        ⊎ ((n : ℕ) × (u : W) × (e : Error) × ((host.sleep n u).0 ≡ some e) × (p.0 ≡ err e))

    module _ (w : W) (empty : log w ≡ []) where
      abbrev outcome : Result (Unit {0})
      outcome = (fetch_with_retry host unicode git_dir forge remote w).0

      abbrev outcomes : List (Result (Unit {0}))
      outcomes = log (fetch_with_retry host unicode git_dir forge remote w).1
