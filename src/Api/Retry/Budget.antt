-- ===== src/Api/Retry/Budget.antt =====
-- The attempts and the waits of a whole run.
use forge_sync.Base.{
  ℕ, zero, suc, ◌+◌, ◌≤◌, Bool, true, false, Option, none, some, ◌≡◌, refl, ◌⊎◌, inl, inr, arith,
  ltb,
}
use forge_sync.Base.Int.{ℤ, pos, pos_part, positive, ◌≤ℤ◌}
use forge_sync.Api.Retry.{
  Failure, RetryPolicy, delay, limited, wait_after, unless_failed, retry_after, after_attempt,
  validate, rounds, run,
}
use forge_sync.Api.Retry.Delays.{delay_bounds}

module _ {W : Type 0} (policy : RetryPolicy W) (too_large : ℕ → ℤ)
    (ctx_err attempt : W → Option Failure × W) where
  -- `P` is what holds of the state before the rest of the loop, `Q` what holds in the end.
  unless_failed_ends :
      (P Q : W → Type 0) (p : Option Failure × W) (next : W → Option Failure × W)
      → ((w : W) → P w → Q w)
      → P p.1
      → ((w : W) → P w → Q (next w).1)
      → Q (unless_failed policy too_large p next).1
  unfolding unless_failed
  unless_failed_ends P Q (some e, w) next i h k = i w h
  unless_failed_ends P Q (none, w) next i h k = k w h

  after_attempt_ends :
      (P Q : W → Type 0) (i : ℕ) (more : Bool) (p : Option Failure × W)
      (next : Failure → W → Option Failure × W)
      → ((w : W) → P w → Q w)
      → P p.1
      → ((d : ℤ) (e : Failure) (w : W)
          → wait_after policy too_large i more e ≡ some d
          → P w
          → P (policy.sleep d w).1)
      → ((e : Failure) (w : W) → P w → Q (next e w).1)
      → Q (after_attempt policy too_large i more p next).1
  unfolding after_attempt retry_after
  after_attempt_ends P Q i more (none, w) next j h s k = j w h
  after_attempt_ends P Q i more (some e, w) next j h s k =
      wait (wait_after policy too_large i more e) refl
    where
      wait :
          (o : Option ℤ)
          → wait_after policy too_large i more e ≡ o
          → Q (retry_after policy too_large o e w (next e)).1
      wait none _ = j w h
      wait (some d) r =
          unless_failed_ends P Q (policy.sleep d w) (next e) j (s d e w r h) (λ v. k e v)

  rounds_bounded :
      (count : W → ℕ)
      → ((w : W) → count (attempt w).1 ≤ count w + 1)
      → ((w : W) → count (ctx_err w).1 ≤ count w)
      → ((d : ℤ) (w : W) → count (policy.sleep d w).1 ≤ count w)
      → (left i : ℕ) (last : Option Failure) (w : W) (n : ℕ) → count w + left ≤ n
      → count (rounds policy too_large ctx_err attempt left i last w).1 ≤ n
  unfolding rounds
  rounds_bounded count a c s zero i last w n h = omega arith
  rounds_bounded count a c s (suc left) i last w n h =
      unless_failed_ends (λ v. count v + suc left ≤ n) (λ v. count v ≤ n) (ctx_err w) _
        (λ v k. omega arith) (omega (arith, c w))
        λ v k.
          after_attempt_ends (λ u. count u + left ≤ n) (λ u. count u ≤ n) i (ltb 0 left) (attempt v)
            _ (λ u l. omega arith) (omega (arith, a v)) (λ d e u r l. omega (arith, s d u))
            (λ e u l. rounds_bounded count a c s left (suc i) (some e) u n l)

  -- Do makes at most as many attempts as the policy allows: a count that only an attempt can raise, and by
  -- one at most, is raised by MaxAttempts at most, which is not at all if that is negative.
  pub run_attempts :
      (count : W → ℕ)
      → ((w : W) → count (attempt w).1 ≤ count w + 1)
      → ((w : W) → count (ctx_err w).1 ≤ count w)
      → ((d : ℤ) (w : W) → count (policy.sleep d w).1 ≤ count w)
      → (w : W)
      → count (run policy too_large ctx_err attempt w).1 ≤ count w + pos_part policy.max_attempts
  unfolding run
  run_attempts count a c s w = valid (validate policy)
    where
      valid :
          (o : Option Failure)
          → count
              (elim o as (λ x. Option Failure × W) [
                | some e ↦ (some e, w)
                | none ↦
                    rounds policy too_large ctx_err attempt (pos_part policy.max_attempts) 0 none w
              ]).1
            ≤ count w + pos_part policy.max_attempts
      valid (some e) = omega arith
      valid none =
          rounds_bounded count a c s (pos_part policy.max_attempts) 0 none w _ (omega arith)

  -- A wait never exceeds one of the two ceilings, where both are positive.
  abbrev pub IsShort : ℤ → Type 0
  IsShort d = (d ≤ℤ policy.max_delay) ⊎ (d ≤ℤ policy.rate_limit_max_delay)

  delay-IsShort :
      (i : ℕ) (server : ℤ) (rate_limited : Bool)
      → positive policy.max_delay ≡ true
      → positive policy.rate_limit_max_delay ≡ true
      → IsShort (delay policy too_large i server rate_limited)
  delay-IsShort i server true m r =
      inr (ground (arith, delay_bounds policy too_large i server true))
  delay-IsShort i server false m r = inl (delay_bounds policy too_large i server false m).0

  -- A wait is always a delay of the policy.
  wait_after-delay :
      (i : ℕ) (more : Bool) (e : Failure) (d : ℤ)
      → wait_after policy too_large i more e ≡ some d
      → (server : ℤ) × (rate_limited : Bool) × (d ≡ delay policy too_large i server rate_limited)
  unfolding wait_after
  wait_after-delay i more e d h = (
    elim e.transient [ some t ↦ t.1 | none ↦ pos 0 ],
    elim e.transient [ some t ↦ limited policy too_large e | none ↦ false ],
    ground arith,
  )

  rounds_waits :
      (P : W → Type 0)
      → positive policy.max_delay ≡ true
      → positive policy.rate_limit_max_delay ≡ true
      → ((w : W) → P w → P (attempt w).1)
      → ((w : W) → P w → P (ctx_err w).1)
      → ((d : ℤ) (w : W) → IsShort d → P w → P (policy.sleep d w).1)
      → (left i : ℕ) (last : Option Failure) (w : W) → P w
      → P (rounds policy too_large ctx_err attempt left i last w).1
  unfolding rounds
  rounds_waits P m r a c s zero i last w p = p
  rounds_waits P m r a c s (suc left) i last w p =
      unless_failed_ends P P (ctx_err w) _ (λ v k. k) (c w p)
        λ v k.
          after_attempt_ends P P i (ltb 0 left) (attempt v) _ (λ u l. l) (a v k)
            (λ d e u t l.
              let (x, y, q) = wait_after-delay i (ltb 0 left) e d t in
              s d u (rw q (delay-IsShort i x y m r)) l)
            (λ e u l. rounds_waits P m r a c s left (suc i) (some e) u l)

  -- Where both ceilings are positive, Do only ever sleeps for a time that one of them allows: what an
  -- attempt, a look at the context and such a sleep keep, the whole run keeps.
  pub run_waits :
      (P : W → Type 0)
      → positive policy.max_delay ≡ true
      → positive policy.rate_limit_max_delay ≡ true
      → ((w : W) → P w → P (attempt w).1)
      → ((w : W) → P w → P (ctx_err w).1)
      → ((d : ℤ) (w : W) → IsShort d → P w → P (policy.sleep d w).1)
      → (w : W) → P w
      → P (run policy too_large ctx_err attempt w).1
  unfolding run
  run_waits P m r a c s w p = valid (validate policy)
    where
      valid :
          (o : Option Failure)
          → P
              (elim o as (λ x. Option Failure × W) [
                | some e ↦ (some e, w)
                | none ↦
                    rounds policy too_large ctx_err attempt (pos_part policy.max_attempts) 0 none w
              ]).1
      valid (some e) = p
      valid none = rounds_waits P m r a c s (pos_part policy.max_attempts) 0 none w p
