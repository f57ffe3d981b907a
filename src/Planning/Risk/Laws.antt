-- ===== src/Planning/Risk/Laws.antt =====
-- What an approval means.
use brain_inspired_agent.Prelude.{
  ℕ, ◌≤◌, String, ◌≡◌, refl, sym, ap, ◌∙◌, true, false, ◌&&◌, some, List, [], ◌∷◌, ◌++◌, any, arith,
  All, ok, Option-cases, Result-cases, inl, inr,
}
use brain_inspired_agent.Cognition.State.{BrainMode, safe}
use brain_inspired_agent.Planning.Risk.{
  RiskBudget, RiskPolicy, RiskApproval, PlannedTask, PlanView, is_slow, required, within, evaluate,
}

-- The budget stays within a limit in each of its three parts.
abbrev pub Fits : RiskBudget → RiskBudget → Type 0
Fits b limit =
    (b.max_tokens ≤ limit.max_tokens)
    × (b.max_cost_minor ≤ limit.max_cost_minor)
    × (b.max_duration ≤ limit.max_duration)

-- The task asks only for capabilities of the list and has no node over the limit.
abbrev pub Permits : List String → ℕ → PlannedTask → Type 0
Permits allowed limit t =
    (within allowed t.required_capabilities ≡ true) × (any (is_slow limit) t.node_timeouts ≡ false)

-- The plan is fresh, each task is permitted (in SAFE mode by both lists), and the requested budget,
-- which the approval grants, fits the plan's and the day's.
pub record IsApproved (p : RiskPolicy) (plan : PlanView) (mode : BrainMode) (now : ℕ)
    (a : RiskApproval) : Type 0 where
  pub fresh : (t : ℕ) → plan.fresh_until ≡ some t → now ≤ t
  pub permitted : All (Permits p.allowed_capabilities p.max_node_duration) plan.tasks
  pub safe_permitted :
      mode ≡ safe → All (Permits p.safe_capabilities p.max_node_duration) plan.tasks
  pub requested : plan.requested_budget ≡ some a.budget
  pub fits_plan : Fits a.budget p.plan_budget
  pub fits_day : Fits a.budget p.daily_remaining
  pub version : a.policy_version ≡ p.version
  pub permissions : a.allowed_permissions ≡ p.allowed_permissions

within-append :
    (allowed xs ys : List String)
    → within allowed (xs ++ ys) ≡ (within allowed xs && within allowed ys)
within-append allowed [] ys = refl
within-append allowed (x ∷ xs) ys = ground (arith, within-append allowed xs ys)

required-Permits :
    (allowed : List String) (limit : ℕ) (ts : List PlannedTask) (names : List String)
    → required limit ts ≡ ok names
    → within allowed names ≡ true
    → All (Permits allowed limit) ts
unfolding required
required-Permits allowed limit [] names h e = tt
required-Permits allowed limit (t ∷ ts) names h e = elim (Result-cases (required limit ts)) [
  | inl (rest, f) ↦
      let same : t.required_capabilities ++ rest ≡ names = ground (arith, h, f) in
      let both =
        sym (within-append allowed t.required_capabilities rest) ∙ (ap (within allowed) same ∙ e) in
      (
        (ground (arith, both), ground (arith, h)),
        required-Permits allowed limit ts rest f (ground (arith, both)),
      )
  | inr (x, f) ↦ absurd (ground (arith, h, f))
]

-- An approved plan is fresh, asks only for allowed capabilities (in SAFE mode only for safe ones), has no
-- node over the time limit, and is granted exactly the budget that it requested, which fits the
-- plan's limit and what is left of the day's.
pub evaluate-IsApproved :
    (p : RiskPolicy) (plan : PlanView) (mode : BrainMode) (now : ℕ) (a : RiskApproval)
    → evaluate p plan mode now ≡ ok a
    → IsApproved p plan mode now a
unfolding evaluate
evaluate-IsApproved p plan mode now a h = elim (Option-cases plan.fresh_until) [
  | inl e ↦ absurd (ground (arith, h, e))
  | inr (t, e) ↦ elim (Result-cases (required p.max_node_duration plan.tasks)) [
    | inr (x, f) ↦ absurd (ground (arith, h, e, f))
    | inl (names, f) ↦ elim (Option-cases plan.requested_budget) [
      | inl g ↦ absurd (ground (arith, h, e, f, g))
      | inr (b, g) ↦ record {
        fresh = λ u same. ground (arith, h, e, f, g, same);
        permitted =
            required-Permits p.allowed_capabilities p.max_node_duration plan.tasks names f
              (ground (arith, h, e, f, g));
        safe_permitted = λ m.
            required-Permits p.safe_capabilities p.max_node_duration plan.tasks names f
              (ground (arith, h, e, f, g, m));
        requested = ground (arith, h, e, f, g);
        fits_plan = ground (arith, h, e, f, g);
        fits_day = ground (arith, h, e, f, g);
        version = ground (arith, h, e, f, g);
        permissions = ground (arith, h, e, f, g);
      }
    ]
  ]
]
