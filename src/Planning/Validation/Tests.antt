-- ===== src/Planning/Validation/Tests.antt =====
-- A plan of two tasks, and one whose first task is hidden by another of the same identifier.
use brain_inspired_agent.Prelude.{
  ◌<◌, String, ◌≡◌, refl, true, List, [], ◌∷◌, All, ok, lookup, insert,
}
use brain_inspired_agent.Prelude.Int.{pos}
use brain_inspired_agent.Prelude.Pairs.{find_pair}
use brain_inspired_agent.Workflow.Validator.{Definition}
use brain_inspired_agent.Workflow.Registry.{WorkflowDefinition, active, Registry, get}
use brain_inspired_agent.Workflow.Graph.Counts.{Within}
use brain_inspired_agent.Planning.Acyclic.{assert_acyclic}
use brain_inspired_agent.Planning.Acyclic.Visit.{Finished}
use brain_inspired_agent.Planning.Validation.{
  PlanTask, PlanDocument, CandidatePlan, ValidatedPlan, PlanValidator, validated_task,
  validate_plan, task_ids, edges_of,
}
use brain_inspired_agent.Planning.Validation.Laws.{IsAllowed, validate_plan_lem}

abbrev quotes : Definition
quotes = record {
  spec_version = "1.0";
  workflow_id = "quotes";
  version = "1.0.0";
  name = "Quotes";
  timeout = pos 600;
  max_parallelism = pos 2;
  required_capabilities = [];
  nodes = [];
  output_mapping = [];
}

abbrev item : WorkflowDefinition
item = record {
  workflow_id = "quotes";
  version = "1.0.0";
  status = active;
  digest = "d";
  definition = quotes;
  validation = record {
    workflow_id = "quotes";
    version = "1.0.0";
    digest = "d";
    topological_order = [];
    referenced_workflows = [];
  };
}

abbrev registry : Registry
registry = record {
  validator = record { max_nodes = 100; is_expression = λ e. true; digest_of = λ d. d.version };
  definitions = (("quotes", "1.0.0"), item) ∷ [];
  active_keys = ("quotes", ("quotes", "1.0.0")) ∷ [];
}

abbrev validator : PlanValidator
validator = record {
  registry = registry;
  fits_schema = λ d. true;
  fits_input = λ w p. true;
  digest_of = λ d. d.plan_id;
}

abbrev task : String → List String → PlanTask
task id before = record {
  task_id = id;
  depends_on = before;
  workflow_id = "quotes";
  workflow_version = "1.0.0";
  params = "{}";
  deadline = 500;
  priority = 50;
}

abbrev plan_of : List PlanTask → PlanDocument
plan_of tasks = record {
  status = "CANDIDATE";
  plan_id = "p-1";
  correlation_id = "c-1";
  created_at = 100;
  expires_at = 900;
  tasks = tasks;
}

abbrev candidate : List PlanTask → CandidatePlan
candidate tasks = record {
  plan_id = "p-1";
  document = plan_of tasks;
  digest = "p-1";
  created_at = 100;
  expires_at = 900;
  correlation_id = "c-1";
}

abbrev two : List PlanTask
two = task "second" ("first" ∷ []) ∷ task "first" [] ∷ []

abbrev accepted : ValidatedPlan
accepted = record {
  plan = candidate two;
  tasks =
      validated_task (task "second" ("first" ∷ [])) item
      ∷ validated_task (task "first" []) item
      ∷ [];
}

two_accepted : validate_plan validator 200 (plan_of two) ≡ ok accepted
unfolding validate_plan assert_acyclic get find_pair lookup insert
two_accepted = refl

validate_plan_lem_example :
    (200 < 900)
    × All (IsAllowed validator 200 (plan_of two)) two
    × (order : List String) × Finished (edges_of two []) order
    × Within (task_ids two) order
validate_plan_lem_example = validate_plan_lem validator 200 (plan_of two) accepted two_accepted

-- The first and the second task wait for each other.
abbrev hidden : List PlanTask
hidden = task "first" ("second" ∷ []) ∷ task "second" ("first" ∷ []) ∷ task "first" [] ∷ []

hidden_accepted :
    validate_plan validator 200 (plan_of hidden)
    ≡ ok (record {
      plan = candidate hidden;
      tasks =
          validated_task (task "first" ("second" ∷ [])) item
          ∷ validated_task (task "second" ("first" ∷ [])) item
          ∷ validated_task (task "first" []) item
          ∷ [];
    })
unfolding validate_plan assert_acyclic get find_pair lookup insert
hidden_accepted = refl
