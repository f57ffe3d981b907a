-- ===== src/Events/Retry/Tests.antt =====
-- The default backoff of the outbox, in seconds.
use brain_inspired_agent.Prelude.{ℕ, ◌≤◌, min, ◌≡◌, arith, ok, raise, refl, false}
use brain_inspired_agent.Events.Retry.{
  OutboxRetryPolicy, delay_overflow, overflows, float_limit, delay_after,
}
use brain_inspired_agent.Events.Retry.Laws.{IsBackoff, IsCapped, delay_grows}

abbrev outbox : OutboxRetryPolicy
outbox = record { initial_delay = 1; multiplier = record { num = 2; den = 1 }; max_delay = 300 }

outbox-IsBackoff : IsBackoff outbox
outbox-IsBackoff = record { den_pos = omega arith; at_least_one = omega arith }

outbox_fits : overflows outbox 4 ≡ false
unfolding overflows float_limit
outbox_fits = refl

-- After 1025 failures the default multiplier's power overflows.
outbox_overflows : delay_after outbox 1025 ≡ raise delay_overflow
unfolding delay_after overflows float_limit
outbox_overflows = refl

delay_grows_example :
    (a b : ℕ) × (delay_after outbox 3 ≡ ok a)
    × (delay_after outbox 5 ≡ ok b)
    × IsCapped outbox 2 a
    × IsCapped outbox 4 b
    × (min 1 300 ≤ a)
    × (a ≤ b)
delay_grows_example = delay_grows outbox 2 2 outbox-IsBackoff outbox_fits
