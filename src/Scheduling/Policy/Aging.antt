-- ===== src/Scheduling/Policy/Aging.antt =====
-- Aging and deadlines in a candidate's score.
use native.Mathlib.Nat.{
  mul-le-mul_right, mul-le-mul_left, div-zero, le-div_iff_mul-le, le_trans, div-mul-le_self,
}
use brain_inspired_agent.Prelude.{ℕ, zero, suc, ◌-◌, ◌*◌, ◌/◌, ◌≤◌, Option, none, some, arith}
use brain_inspired_agent.Prelude.Int.{◌≤ℤ◌}
use brain_inspired_agent.Scheduling.Models.{SchedulingCandidate, BudgetSnapshot}
use brain_inspired_agent.Scheduling.Policy.{PolicyConfig, aging_bonus, deadline_urgency, score}

div_mono : (a b k : ℕ) → a ≤ b → a / k ≤ b / k
div_mono a b zero h = rw (div-zero a, div-zero b) (omega arith)
div_mono a b (suc k) h =
    (le-div_iff_mul-le (omega arith)).1 (le_trans (div-mul-le_self a (suc k)) h)

aging_bonus_mono :
    (p : PolicyConfig) (c : SchedulingCandidate) (now later : ℕ)
    → now ≤ later
    → aging_bonus p c now ≤ aging_bonus p c later
unfolding aging_bonus
aging_bonus_mono p c now later h =
    let steps =
      mul-le-mul_right p.aging_step
        (div_mono (now - c.enqueued_at) (later - c.enqueued_at) p.aging_interval (omega arith)) in
    omega (arith, steps)

deadline_urgency_mono :
    (p : PolicyConfig) (d : Option ℕ) (now later : ℕ)
    → now ≤ later
    → deadline_urgency p d now ≤ deadline_urgency p d later
unfolding deadline_urgency
deadline_urgency_mono p none now later h = omega arith
deadline_urgency_mono p (some at) now later h =
    div_mono (p.deadline_bonus * (p.deadline_horizon - (at - now)))
      (p.deadline_bonus * (p.deadline_horizon - (at - later))) p.deadline_horizon
      (mul-le-mul_left p.deadline_bonus (omega arith))

-- The score of a candidate that waits never falls as time passes, whatever its class, its deadline
-- and the mode, and the part of it that comes from waiting stays within the configured maximum.
pub score_mono :
    (p : PolicyConfig) (b : BudgetSnapshot) (c : SchedulingCandidate) (now later : ℕ)
    → now ≤ later
    → (score p b now c ≤ℤ score p b later c) × (aging_bonus p c later ≤ p.maximum_aging_bonus)
unfolding score
score_mono p b c now later h =
    let aged = aging_bonus_mono p c now later h in
    let due = deadline_urgency_mono p c.deadline now later h in
    (ground (arith, aged, due), unfold aging_bonus in omega arith)
