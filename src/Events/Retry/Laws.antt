-- ===== src/Events/Retry/Laws.antt =====
-- The backoff policies: what their constructors accept, and the delays they give.
use native.Mathlib.Nat.{
  add-suc, add-zero, zero-add, le_refl, pow-zero, div-one, mul-one, le-div_iff_mul-le,
  div-mul-le_self, div-lt_iff_lt-mul, mul_assoc, pow-suc, mul-le-mul_left, mul-le-mul_right,
  le_trans,
}
use brain_inspired_agent.Prelude.{
  ℕ, zero, suc, ◌+◌, ◌-◌, ◌*◌, ◌^◌, ◌≤◌, ◌<◌, ◌≡◌, arith, min, ok, raise, ◌↔◌, true, false, sym, ap,
  subst, ◌⊎◌, inl, inr, Bool-cases, leb, ◌∙◌,
}
use brain_inspired_agent.Prelude.Int.{ℤ, pos, pos_part, ◌≤ℤ◌}
use brain_inspired_agent.Events.Retry.{
  OutboxRetryPolicy, RetryPolicy, create, scaled, delay_after, overflows, float_limit,
  delay_overflow,
}

-- The multiplier is a fraction that is at least one.
pub record IsBackoff (p : OutboxRetryPolicy) : Type 0 where
  pub den_pos : 0 < p.multiplier.den
  pub at_least_one : p.multiplier.den ≤ p.multiplier.num

-- The fields that a constructor call keeps.
abbrev pub policy_of : ℤ → ℤ → ℤ → ℕ → ℤ → RetryPolicy
policy_of attempts initial num den longest = record {
  max_attempts = pos_part attempts;
  backoff = record {
    initial_delay = pos_part initial;
    multiplier = record { num = pos_part num; den = den };
    max_delay = pos_part longest;
  };
}

-- The constructor accepts exactly the arguments in range (at least one attempt, no negative
-- delay, a multiplier of at least one), and an accepted policy holds them unchanged.
pub create_iff :
    (attempts initial num longest : ℤ) (den : ℕ) (p : RetryPolicy)
    → (create attempts initial num den longest ≡ ok p) ↔ (
        (pos 1 ≤ℤ attempts)
        × (pos 0 ≤ℤ initial)
        × (pos den ≤ℤ num)
        × (pos 0 ≤ℤ longest)
        × (p ≡ policy_of attempts initial num den longest))
unfolding create
create_iff a i n l d p = (λ h. ground arith, λ h. ground arith)

pow-pos : (a k : ℕ) → 0 < a → 0 < a ^ k
pow-pos a zero h = rw pow-zero (omega arith)
pow-pos a (suc k) h = rw pow-suc (grind (arith, pow-pos a k h))

scale : (q y i w d n : ℕ) → q * y ≤ i * w → d ≤ n → q * (y * d) ≤ i * (w * n)
scale q y i w d n h e =
    rw (← mul_assoc q y d, ← mul_assoc i w n)
      (le_trans (mul-le-mul_right d h) (mul-le-mul_left (i * w) e))

-- One more retry never shortens the delay before the cap.
scaled_step : (p : OutboxRetryPolicy) (k : ℕ) → IsBackoff p → scaled p k ≤ scaled p (suc k)
unfolding scaled
scaled_step p k h = (le-div_iff_mul-le (pow-pos den (suc k) h.den_pos)).1 (
    rw (pow-suc den k, pow-suc num k)
      (scale (scaled p k) (den ^ k) initial_delay (num ^ k) den num
        (div-mul-le_self (initial_delay * num ^ k) (den ^ k)) h.at_least_one))
  where
    open p use {initial_delay, multiplier.{num, den}}

scaled_zero : (p : OutboxRetryPolicy) → scaled p 0 ≡ p.initial_delay
unfolding scaled
scaled_zero p = simp (pow-zero, div-one, mul-one)

scaled_mono : (p : OutboxRetryPolicy) (i k : ℕ) → IsBackoff p → scaled p i ≤ scaled p (i + k)
scaled_mono p i zero h = rw add-zero (le_refl (scaled p i))
scaled_mono p i (suc k) h = rw add-suc (omega (arith, scaled_mono p i k h, scaled_step p (i + k) h))

-- Once the power overflows it overflows for more retries.
overflows_step :
    (p : OutboxRetryPolicy) (k : ℕ)
    → IsBackoff p
    → overflows p k ≡ true
    → overflows p (suc k) ≡ true
unfolding overflows
overflows_step p k h e =
    let more : float_limit * (den ^ k * den) ≤ 1 * (num ^ k * num) =
      scale float_limit (den ^ k) 1 (num ^ k) den num (ground (arith, e)) h.at_least_one in
    rw (pow-suc den k, pow-suc num k) (ground (arith, more))
  where
    open p use {multiplier.{num, den}}

overflows_before :
    (p : OutboxRetryPolicy) (i k : ℕ)
    → IsBackoff p
    → overflows p (i + k) ≡ false
    → overflows p i ≡ false
overflows_before p i zero h e = ap (overflows p) (sym (add-zero i)) ∙ e
overflows_before p i (suc k) h e =
    overflows_before p i k h
      (ground (arith, overflows_step p (i + k) h, ap (overflows p) (add-suc i k), e))

-- A delay never passes the maximum, and it starts from the initial delay.
pub delay-le-max :
    (p : OutboxRetryPolicy) (n : ℕ) {d : ℕ} → delay_after p n ≡ ok d → d ≤ p.max_delay
unfolding delay_after
delay-le-max p n h = ground arith

-- A delay is the maximum, or the initial delay times the multiplier's power, rounded down and at most
-- the maximum.
abbrev pub IsCapped : OutboxRetryPolicy → ℕ → ℕ → Type 0
IsCapped p k d =
    (d ≤ p.max_delay)
    × (d * p.multiplier.den ^ k ≤ p.initial_delay * p.multiplier.num ^ k)
    × ((d ≡ p.max_delay)
        ⊎ (p.initial_delay * p.multiplier.num ^ k < (d + 1) * p.multiplier.den ^ k))

scaled-IsCapped :
    (p : OutboxRetryPolicy) (k : ℕ) → IsBackoff p → IsCapped p k (min (scaled p k) p.max_delay)
unfolding scaled
scaled-IsCapped p k h = (
  omega arith,
  le_trans (mul-le-mul_right (den ^ k) capped) fits,
  elim (Bool-cases (leb max_delay (scaled p k))) [
    | inl e ↦ inl (ground (arith, e))
    | inr e ↦
        inr (subst (λ d. initial_delay * num ^ k < (d + 1) * den ^ k) (ground (arith, e)) above)
  ],
)
  where
    open p use {initial_delay, max_delay, multiplier.{num, den}}

    capped : min (scaled p k) max_delay ≤ scaled p k
    capped = omega arith

    fits : scaled p k * den ^ k ≤ initial_delay * num ^ k
    fits = div-mul-le_self (initial_delay * num ^ k) (den ^ k)

    above : initial_delay * num ^ k < (scaled p k + 1) * den ^ k
    above = (div-lt_iff_lt-mul (pow-pos den k h.den_pos)).0 (omega arith)

-- For a policy that its constructor accepts, while the power of the multiplier fits a float: the delay
-- after each failure up to a given one is defined; it is the initial delay times the power, rounded
-- down, or the maximum where that is smaller; it is at least the capped initial delay; and it never falls
-- as failures accumulate.
pub delay_grows :
    (p : OutboxRetryPolicy) (i k : ℕ)
    → IsBackoff p
    → overflows p (i + k) ≡ false
    → (a b : ℕ) × (delay_after p (suc i) ≡ ok a)
      × (delay_after p (suc (i + k)) ≡ ok b)
      × IsCapped p i a
      × IsCapped p (i + k) b
      × (min p.initial_delay p.max_delay ≤ a)
      × (a ≤ b)
unfolding delay_after
delay_grows p i k h e = (
  min (scaled p i) p.max_delay,
  min (scaled p (i + k)) p.max_delay,
  ground (arith, overflows_before p i k h e),
  ground (arith, e),
  scaled-IsCapped p i h,
  scaled-IsCapped p (i + k) h,
  omega (arith, scaled_zero p, rw zero-add at (scaled_mono p 0 i h)),
  omega (arith, scaled_mono p i k h),
)

-- A policy whose every delay fits a float: of the failures that it retries, the last one's does.
pub record IsFinite (p : RetryPolicy) : Type 0 where
  pub valid : IsBackoff p.backoff
  pub last_fits : overflows p.backoff (p.max_attempts - 2) ≡ false

-- After a failure there is a delay, unless the power of the multiplier overflows.
pub delay_after-fits :
    (p : OutboxRetryPolicy) (n : ℕ)
    → overflows p n ≡ false
    → (d : ℕ) × (delay_after p (suc n) ≡ ok d)
unfolding delay_after
delay_after-fits p n e = (min (scaled p n) p.max_delay, ground (arith, e))

pub delay_after-overflows :
    (p : OutboxRetryPolicy) (n : ℕ)
    → overflows p n ≡ true
    → delay_after p (suc n) ≡ raise delay_overflow
unfolding delay_after
delay_after-overflows p n e = ground (arith, e)

-- Every failure that such a policy retries has a delay.
pub delay_after-ok :
    (p : RetryPolicy) (n : ℕ)
    → IsFinite p
    → suc n < p.max_attempts
    → (d : ℕ) × (delay_after p.backoff (suc n) ≡ ok d)
delay_after-ok p n h e =
    let rest = p.max_attempts - 2 - n in
    let same : n + rest ≡ p.max_attempts - 2 = omega arith in
    delay_after-fits p.backoff n
      (overflows_before p.backoff n rest h.valid (ap (overflows p.backoff) same ∙ h.last_fits))
