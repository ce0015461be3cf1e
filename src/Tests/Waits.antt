-- ===== src/Tests/Waits.antt =====
-- internal/api/retry.go: a policy of four attempts from one second to a minute, and a call that
-- always fails. The state of the outside counts the calls and adds up the sleeps, the longest of which it
-- keeps.
use forge_sync.Base.{
  ℕ, suc, ◌+◌, ◌*◌, ◌^◌, ◌≤◌, true, false, Option, none, some, ◌≡◌, refl, arith, ltb, if◌then◌else◌,
  ◌&&◌, nat_eq,
}
use forge_sync.Base.Int.{ℤ, pos, pos_part, wrap64, ◌*ℤ◌, ◌≤ℤ◌}
use forge_sync.Api.Retry.{Failure, RetryPolicy, ceiling, capped, wait_after, delay, grown, run}
use forge_sync.Api.Retry.Delays.{delay_bounds, delay_exponential, delay_overflow}
use forge_sync.Api.Retry.Budget.{run_attempts, run_waits}

pub record Clock : Type 0 where
  calls : ℕ
  slept : ℕ
  longest : ℕ

abbrev policy : RetryPolicy Clock
policy = record {
  max_attempts = pos 4;
  base_delay = pos (10 ^ 9);
  max_delay = pos (60 * 10 ^ 9);
  rate_limit_max_delay = pos (900 * 10 ^ 9);
  network_retry = true;
  sleep = λ d w. (
    none,
    record w {
      slept = w.slept + pos_part d;
      longest = if ltb w.longest (pos_part d) then pos_part d else w.longest;
    },
  );
}

-- The same policy without a ceiling.
abbrev unlimited : RetryPolicy Clock
unlimited = record policy { max_delay = pos 0 }

abbrev too_large : ℕ → ℤ
too_large i = pos 0

abbrev unavailable : Failure
unavailable = record {
  text = "503";
  transient = some (true, pos 0);
  rate_limited = none;
  is_url_error = false;
}

abbrev call : Clock → Option Failure × Clock
call w = (some unavailable, record w { calls = suc w.calls })

abbrev alive : Clock → Option Failure × Clock
alive w = (none, w)

abbrev start : Clock
start = record { calls = 0; slept = 0; longest = 0 }

four_calls :
    run policy too_large alive call start
    ≡ (some unavailable, record { calls = 4; slept = 7 * 10 ^ 9; longest = 4 * 10 ^ 9 })
unfolding run wait_after delay grown wrap64 ◌*ℤ◌
four_calls = refl

delay_bounds_example :
    (delay policy too_large 8 (pos (3600 * 10 ^ 9)) true ≤ℤ ceiling policy true)
    × (capped policy (ceiling policy true) (pos (3600 * 10 ^ 9))
        ≤ℤ delay policy too_large 8 (pos (3600 * 10 ^ 9)) true)
delay_bounds_example = delay_bounds policy too_large 8 (pos (3600 * 10 ^ 9)) true refl

delay_exponential_example : delay policy too_large 3 (pos 0) false ≡ (
    if ltb 0 (60 * 10 ^ 9) && ltb (60 * 10 ^ 9) (2 ^ 3 * 10 ^ 9)
    then pos (60 * 10 ^ 9)
    else pos (2 ^ 3 * 10 ^ 9))
delay_exponential_example =
    delay_exponential policy too_large 3 (10 ^ 9) (60 * 10 ^ 9) (omega arith) refl refl
      (omega arith)

delay_overflow_example : delay unlimited too_large 34 (pos 0) false ≡ pos 0
delay_overflow_example =
    delay_overflow unlimited too_large 34 (10 ^ 9) 0 (omega arith) refl refl (omega arith)
      (omega arith)

run_attempts_example :
    (run policy too_large alive call start).1.calls ≤ start.calls + pos_part policy.max_attempts
run_attempts_example =
    run_attempts policy too_large alive call (λ w. w.calls) (λ w. omega arith) (λ w. omega arith)
      (λ d w. omega arith) start

run_waits_example : (run policy too_large alive call start).1.longest ≤ 900 * 10 ^ 9
run_waits_example =
    run_waits policy too_large alive call (λ w. w.longest ≤ 900 * 10 ^ 9) refl refl (λ w p. p)
      (λ w p. p) (λ d w s p. ground arith) start (omega arith)
