-- ===== src/Events/Retry.antt =====
-- `OutboxRetryPolicy` of events/outbox.py and `RetryPolicy` of events/inbox.py: exponential
-- backoff with a cap. Durations are whole microseconds and the multiplier is a fraction, so a
-- delay is the source's product rounded down to a microsecond. The float power overflows where the
-- source's does; a product that overflows is infinite there, and the cap applies, as it does here.
pub mod Laws
mod Tests
use brain_inspired_agent.Prelude.{
  ℕ, zero, suc, ◌+◌, ◌-◌, ◌*◌, ◌/◌, ◌^◌, ◌≤◌, ◌<◌, min, ◌==◌, ltb, leb, Bool, if◌then◌else◌, Result,
  ok, raise, ◌>>=◌, ◌>>◌, reject_if,
}
use brain_inspired_agent.Prelude.Int.{ℤ, pos, pos_part, ltb_ℤ}

-- A multiplier `num / den`.
pub record Ratio : Type 0 where
  pub num : ℕ
  pub den : ℕ

pub record OutboxRetryPolicy : Type 0 where
  pub initial_delay : ℕ
  pub multiplier : Ratio
  pub max_delay : ℕ

pub record RetryPolicy : Type 0 where
  pub max_attempts : ℕ
  pub backoff : OutboxRetryPolicy

pub data PolicyError : Type 0 where
  max_attempts_not_positive initial_delay_negative multiplier_below_one max_delay_negative :
      PolicyError
  failed_attempt_not_positive delay_overflow : PolicyError

-- `__post_init__` of `OutboxRetryPolicy`: the raw arguments are signed, the multiplier `num / den`.
pub create_backoff : ℤ → ℤ → ℕ → ℤ → Result PolicyError OutboxRetryPolicy
create_backoff initial num den longest = do
  reject_if (ltb_ℤ initial (pos 0)) initial_delay_negative
  reject_if (ltb_ℤ num (pos den)) multiplier_below_one
  reject_if (ltb_ℤ longest (pos 0)) max_delay_negative
  ok (record {
    initial_delay = pos_part initial;
    multiplier = record { num = pos_part num; den = den };
    max_delay = pos_part longest;
  })

-- `__post_init__` of `RetryPolicy`.
pub create : ℤ → ℤ → ℤ → ℕ → ℤ → Result PolicyError RetryPolicy
unfolding create_backoff
create attempts initial num den longest = do
  reject_if (ltb_ℤ attempts (pos 1)) max_attempts_not_positive
  backoff ← create_backoff initial num den longest
  ok (record { max_attempts = pos_part attempts; backoff = backoff })

-- A power of a float of at least this size rounds to infinity, for which Python's `**` raises
-- OverflowError.
unfoldable pub float_limit : ℕ
float_limit = 2 ^ 1024 - 2 ^ 970

-- Whether `multiplier ** k` overflows.
unfoldable pub overflows : OutboxRetryPolicy → ℕ → Bool
overflows p k = leb (float_limit * p.multiplier.den ^ k) (p.multiplier.num ^ k)

-- The delay before the cap, after `k` retries.
scaled : OutboxRetryPolicy → ℕ → ℕ
scaled p k = p.initial_delay * p.multiplier.num ^ k / p.multiplier.den ^ k

unfoldable pub delay_after : OutboxRetryPolicy → ℕ → Result PolicyError ℕ
unfolding scaled
delay_after p failed_attempt =
    if ltb failed_attempt 1
    then raise failed_attempt_not_positive
    else if overflows p (failed_attempt - 1)
    then raise delay_overflow
    else ok (min (scaled p (failed_attempt - 1)) p.max_delay)
