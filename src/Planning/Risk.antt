-- ===== src/Planning/Risk.antt =====
-- risk.py: the risk gate. A validated plan is seen through the parts of its document and of its tasks'
-- workflow definitions that the gate reads; `none` stands for a part that is not an object, and for a
-- node without a timeout. Sets are lists of texts.
pub mod Laws
mod Tests
use brain_inspired_agent.Prelude.{
  ℕ, String, Bool, true, false, not, ◌&&◌, ◌||◌, Option, none, some, List, [], ◌∷◌, ◌++◌, any, all,
  has, ltb, if◌then◌else◌, Result, ok, raise, ◌>>=◌, ◌>>◌, reject_if,
}
use brain_inspired_agent.Cognition.State.{BrainMode, safe}

pub record RiskBudget : Type 0 where
  pub max_tokens : ℕ
  pub max_cost_minor : ℕ
  pub max_duration : ℕ

pub record RiskPolicy : Type 0 where
  pub version : String
  pub allowed_capabilities : List String
  pub allowed_permissions : List String
  pub plan_budget : RiskBudget
  pub daily_remaining : RiskBudget
  pub safe_capabilities : List String
  pub max_node_duration : ℕ

pub record RiskApproval : Type 0 where
  pub policy_version : String
  pub allowed_permissions : List String
  pub budget : RiskBudget

pub data RiskCode : Type 0 where
  plan_schema_invalid data_stale budget_exceeded capability_denied brain_mode_denied : RiskCode

-- A task's required capabilities, and its nodes' timeouts.
pub record PlannedTask : Type 0 where
  pub required_capabilities : List String
  pub node_timeouts : List (Option ℕ)

-- `policy_context` by its `data_fresh_until`, the tasks, and `requested_budget`.
pub record PlanView : Type 0 where
  pub fresh_until : Option ℕ
  pub tasks : List PlannedTask
  pub requested_budget : Option RiskBudget

-- A missing timeout counts as the limit itself.
abbrev pub is_slow : ℕ → Option ℕ → Bool
is_slow limit none = false
is_slow limit (some t) = ltb limit t

-- The capabilities of all tasks, or the rejection of a slow node.
pub required : ℕ → List PlannedTask → Result RiskCode (List String)
required limit [] = ok []
required limit (t ∷ ts) =
    let rest = required limit ts in
    if any (is_slow limit) t.node_timeouts
    then raise budget_exceeded
    else rest >>= λ names. ok (t.required_capabilities ++ names)

abbrev pub within : List String → List String → Bool
within allowed names = all (λ n. has n allowed) names

abbrev pub is_safe : BrainMode → Bool
is_safe safe = true
is_safe _ = false

abbrev pub exceeds : RiskBudget → RiskBudget → Bool
exceeds b limit =
    ltb limit.max_tokens b.max_tokens
    || (ltb limit.max_cost_minor b.max_cost_minor || ltb limit.max_duration b.max_duration)

abbrev or_invalid {ℓ} : {A : Type ℓ} → Option A → Result RiskCode A
or_invalid none = raise plan_schema_invalid
or_invalid (some x) = ok x

pub evaluate : RiskPolicy → PlanView → BrainMode → ℕ → Result RiskCode RiskApproval
evaluate p plan mode now = do
  fresh_until ← or_invalid plan.fresh_until
  reject_if (ltb fresh_until now) data_stale
  capabilities ← required p.max_node_duration plan.tasks
  reject_if (not (within p.allowed_capabilities capabilities)) capability_denied
  reject_if (is_safe mode && not (within p.safe_capabilities capabilities)) brain_mode_denied
  budget ← or_invalid plan.requested_budget
  reject_if (exceeds budget p.plan_budget || exceeds budget p.daily_remaining) budget_exceeded
  ok (record {
    policy_version = p.version;
    allowed_permissions = p.allowed_permissions;
    budget = budget;
  })
