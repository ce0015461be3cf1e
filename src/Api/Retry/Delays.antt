-- ===== src/Api/Retry/Delays.antt =====
-- The waits between attempts: their bounds, their growth, and where it overflows.
use forge_sync.Base.{
  ℕ, ◌-◌, ◌*◌, ◌^◌, ◌≤◌, ◌<◌, Bool, true, false, ◌≡◌, arith, ltb, if◌then◌else◌, ◌&&◌, ap,
}
use forge_sync.Base.Int.{ℤ, pos, negsuc, positive, ltb_ℤ, ◌≤ℤ◌, wrap64, ◌*ℤ◌}
use forge_sync.Api.Retry.{RetryPolicy, ceiling, capped, grown, delay}

-- The larger of two waits, each cut at the ceiling.
larger_bounds :
    {W : Type 0} (policy : RetryPolicy W) (cap s g : ℤ)
    → positive cap ≡ true
    → let d =
        if ltb_ℤ (capped policy cap g) (capped policy cap s)
        then capped policy cap s
        else capped policy cap g in
      (d ≤ℤ cap) × (capped policy cap s ≤ℤ d)
larger_bounds policy cap s g h = ground arith

times_pos : (a b : ℕ) → pos a *ℤ pos b ≡ pos (a * b)
unfolding ◌*ℤ◌
times_pos a b = grind arith

wrap64_in_range : (n : ℕ) → n < 2 ^ 63 → wrap64 (pos n) ≡ pos n
unfolding wrap64
wrap64_in_range n h = ground arith

wrap64_past_range : (n : ℕ) → 2 ^ 63 ≤ n → n < 2 ^ 64 → wrap64 (pos n) ≡ negsuc (2 ^ 64 - 1 - n)
unfolding wrap64
wrap64_past_range n h k = ground arith

module _ {W : Type 0} (policy : RetryPolicy W) (too_large : ℕ → ℤ) where
  -- With a positive ceiling, the wait never exceeds the ceiling, and it is at least what the server asked
  -- for, or the ceiling if the server asked for more. The ceiling is the one for rate limits if the
  -- failure was a rate limit and that ceiling is positive, and the ordinary one otherwise.
  pub delay_bounds :
      (i : ℕ) (server : ℤ) (rate_limited : Bool)
      → positive (ceiling policy rate_limited) ≡ true
      → (delay policy too_large i server rate_limited ≤ℤ ceiling policy rate_limited)
        × (capped policy (ceiling policy rate_limited) server
            ≤ℤ delay policy too_large i server rate_limited)
  unfolding delay
  delay_bounds i server rate_limited h =
      larger_bounds policy (ceiling policy rate_limited) server (grown policy too_large i) h

  grown_product :
      (i b : ℕ)
      → i < 63
      → policy.base_delay ≡ pos b
      → grown policy too_large i ≡ wrap64 (pos (2 ^ i * b))
  unfolding grown
  grown_product i b h e =
      let t : ltb i 63 ≡ true = ground arith in rw (t, e) (ap wrap64 (times_pos (2 ^ i) b))

  -- As long as the base delay times 2^i is an int64, the wait after attempt i without a server's demand is
  -- that product, or the ordinary ceiling if that is positive and smaller.
  pub delay_exponential :
      (i b c : ℕ)
      → i < 63
      → policy.base_delay ≡ pos b
      → policy.max_delay ≡ pos c
      → 2 ^ i * b < 2 ^ 63
      → delay policy too_large i (pos 0) false
        ≡ (if ltb 0 c && ltb c (2 ^ i * b) then pos c else pos (2 ^ i * b))
  unfolding delay
  delay_exponential i b c h e m f =
      rw (grown_product i b h e, wrap64_in_range (2 ^ i * b) f, m) (ground arith)

  -- Once the base delay times 2^i is at least 2^63, and below 2^64, it has wrapped around to a negative
  -- number: whatever the ordinary ceiling, the wait after attempt i without a server's demand is zero.
  pub delay_overflow :
      (i b c : ℕ)
      → i < 63
      → policy.base_delay ≡ pos b
      → policy.max_delay ≡ pos c
      → 2 ^ 63 ≤ 2 ^ i * b
      → 2 ^ i * b < 2 ^ 64
      → delay policy too_large i (pos 0) false ≡ pos 0
  unfolding delay
  delay_overflow i b c h e m f g =
      rw (grown_product i b h e, wrap64_past_range (2 ^ i * b) f g, m) (ground arith)
