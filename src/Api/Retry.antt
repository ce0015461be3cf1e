-- ===== src/Api/Retry.antt =====
-- internal/api/retry.go: bounded attempts with exponential delays. A `time.Duration` is an int64 of
-- nanoseconds.
pub mod Delays
pub mod Budget
use forge_sync.Base.{
  ℕ, zero, suc, ◌+◌, ◌-◌, ◌*◌, ◌%◌, ◌^◌, String, Bool, true, false, not, ◌&&◌, ◌||◌, Option, none,
  some, ◌==◌, nat_eq, ltb, leb, if◌then◌else◌,
}
use forge_sync.Base.Int.{
  ℤ, pos, negsuc, pos_part, neg_part, positive, negative, ltb_ℤ, wrap64, ◌*ℤ◌,
}

-- What `errors.As` finds in an error: the two methods of a TransientError, the method of a
-- RateLimitedError, and whether there is a `url.Error`.
pub record Failure : Type 0 where
  pub text : String
  pub transient : Option (Bool × ℤ)
  pub rate_limited : Option Bool
  pub is_url_error : Bool

abbrev pub plain : String → Failure
plain text = record { text = text; transient = none; rate_limited = none; is_url_error = false }

-- `sleep` is the policy's Sleep, over the state of the outside.
pub record RetryPolicy (W : Type 0) : Type 0 where
  pub max_attempts : ℤ
  pub base_delay : ℤ
  pub max_delay : ℤ
  pub rate_limit_max_delay : ℤ
  pub network_retry : Bool
  pub sleep : ℤ → W → Option Failure × W

unfoldable pub is_transport_error : Failure → Bool
is_transport_error e = elim e.transient [ some t ↦ false | none ↦ e.is_url_error ]

module _ {W : Type 0} (policy : RetryPolicy W) where
  open policy use {max_attempts, base_delay, max_delay, rate_limit_max_delay, network_retry, sleep}

  unfoldable pub validate : Option Failure
  validate =
      if ltb_ℤ max_attempts (pos 1)
      then some (plain "retry policy requires at least one attempt")
      else if negative base_delay || negative max_delay
      then some (plain "retry delays must not be negative")
      else if positive max_delay && ltb_ℤ max_delay base_delay
      then some (plain "retry base delay exceeds max delay")
      else none

  abbrev pub ceiling : Bool → ℤ
  ceiling rate_limited =
      if rate_limited && positive rate_limit_max_delay then rate_limit_max_delay else max_delay

  -- `if d > cap && cap > 0 { d = cap }`
  abbrev pub capped : ℤ → ℤ → ℤ
  capped cap d = if ltb_ℤ cap d && positive cap then cap else d

  -- `time.Duration(math.Pow(2, float64(attempt))) * p.BaseDelay`. A power of two is exact as a float64,
  -- and from 2^63 on its conversion to an int64 depends on the machine: `too_large` is what it gives.
  unfoldable pub grown : (ℕ → ℤ) → ℕ → ℤ
  grown too_large attempt =
      wrap64 ((if ltb attempt 63 then pos (2 ^ attempt) else too_large attempt) *ℤ base_delay)

  module _ (too_large : ℕ → ℤ) where
    unfoldable pub delay : ℕ → ℤ → Bool → ℤ
    delay attempt server_delay rate_limited =
        let cap = ceiling rate_limited in
        let server = capped cap server_delay in
        let growth = capped cap (grown too_large attempt) in
        if ltb_ℤ growth server then server else growth

    abbrev limited : Failure → Bool
    limited e = elim e.rate_limited [ some b ↦ b | none ↦ false ]

    -- The wait before the next attempt after the failure of attempt `i`, or none if the failure is final.
    -- `more` says whether the budget has another attempt.
    unfoldable pub wait_after : ℕ → Bool → Failure → Option ℤ
    unfolding is_transport_error
    wait_after i more e = elim e.transient [
      | some (transient, server_delay) ↦
          if transient && more then some (delay i server_delay (limited e)) else none
      | none ↦
          if network_retry && is_transport_error e && more
          then some (delay i (pos 0) false)
          else none
    ]

    -- `if sleepErr := p.Sleep(...); sleepErr != nil { return sleepErr }`, and the same for `ctx.Err()`.
    unfoldable pub unless_failed :
        Option Failure × W → (W → Option Failure × W) → Option Failure × W
    unless_failed (some e, w) next = (some e, w)
    unless_failed (none, w) next = next w

    unfoldable pub retry_after :
        Option ℤ → Failure → W → (W → Option Failure × W) → Option Failure × W
    unfolding unless_failed
    retry_after none e w next = (some e, w)
    retry_after (some d) e w next = unless_failed (sleep d w) next

    -- What follows an attempt: success, a final failure, or a wait and the next round.
    unfoldable pub after_attempt :
        ℕ → Bool → Option Failure × W → (Failure → W → Option Failure × W) → Option Failure × W
    unfolding retry_after
    after_attempt i more (none, w) next = (none, w)
    after_attempt i more (some e, w) next = retry_after (wait_after i more e) e w (next e)

    module _ (ctx_err attempt : W → Option Failure × W) where
      -- The loop, with the attempts that the budget has left. `last` is `err`.
      unfoldable pub rounds : ℕ → ℕ → Option Failure → W → Option Failure × W
      unfolding after_attempt
      rounds zero i last w = (last, w)
      rounds (suc left) i last w =
          unless_failed (ctx_err w)
            λ w₁. after_attempt i (ltb 0 left) (attempt w₁) λ e w₂. rounds left (suc i) (some e) w₂

      -- `Do`
      unfoldable pub run : W → Option Failure × W
      unfolding validate rounds
      run w = elim validate [
        | some e ↦ (some e, w)
        | none ↦ rounds (pos_part max_attempts) 0 none w
      ]
