-- ===== src/Planning/Risk/Tests.antt =====
-- A plan of one task.
use brain_inspired_agent.Prelude.{◌≡◌, refl, none, some, [], ◌∷◌, ok}
use brain_inspired_agent.Cognition.State.{safe}
use brain_inspired_agent.Planning.Risk.{
  RiskBudget, RiskPolicy, RiskApproval, PlanView, required, evaluate,
}
use brain_inspired_agent.Planning.Risk.Laws.{IsApproved, evaluate-IsApproved}

abbrev limits : RiskBudget
limits = record { max_tokens = 100; max_cost_minor = 50; max_duration = 60 }

abbrev policy : RiskPolicy
policy = record {
  version = "1.0";
  allowed_capabilities = "read" ∷ "write" ∷ [];
  allowed_permissions = "data" ∷ [];
  plan_budget = limits;
  daily_remaining = limits;
  safe_capabilities = "read" ∷ [];
  max_node_duration = 30;
}

abbrev plan : PlanView
plan = record {
  fresh_until = some 20;
  tasks = record { required_capabilities = "read" ∷ []; node_timeouts = none ∷ some 30 ∷ [] } ∷ [];
  requested_budget = some limits;
}

abbrev approval : RiskApproval
approval = record { policy_version = "1.0"; allowed_permissions = "data" ∷ []; budget = limits }

approved : evaluate policy plan safe 20 ≡ ok approval
unfolding evaluate required
approved = refl

evaluate-IsApproved_example : IsApproved policy plan safe 20 approval
evaluate-IsApproved_example = evaluate-IsApproved policy plan safe 20 approval approved
