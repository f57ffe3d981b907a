-- ===== src/Workflow/Validator/Tests.antt =====
-- A skill whose result a condition tests, with a step on one of its branches.
use brain_inspired_agent.Prelude.{
  String, ◌≡◌, refl, true, none, some, List, [], ◌∷◌, ok, lookup, insert,
}
use brain_inspired_agent.Prelude.Int.{pos}
use brain_inspired_agent.Prelude.Sort.{sorted}
use brain_inspired_agent.Prelude.Texts.{cut}
use brain_inspired_agent.Workflow.Graph.{topological_order}
use brain_inspired_agent.Workflow.Validator.{
  Node, skill, condition, Definition, WorkflowValidation, WorkflowValidator, validate,
}
use brain_inspired_agent.Workflow.Validator.Laws.{IsValidated, validate_lem}

abbrev step : String → List String → Node
step id before = record {
  node_id = id;
  depends_on = before;
  timeout = some (pos 30);
  body = skill "market.quote" "1.0" (some "PURE");
}

abbrev checked : Definition
checked = record {
  spec_version = "1.0";
  workflow_id = "quotes";
  version = "1.0.0";
  name = "Quotes";
  timeout = pos 600;
  max_parallelism = pos 2;
  required_capabilities = "market.quote" ∷ [];
  nodes =
      step "report" []
      ∷ record {
        node_id = "is_open";
        depends_on = "fetch" ∷ [];
        timeout = none;
        body = condition "$.nodes.fetch.open == true" ("report" ∷ []) [];
      }
      ∷ step "fetch" []
      ∷ [];
  output_mapping = some ("$" ∷ "nodes" ∷ "report" ∷ []) ∷ [];
}

abbrev validator : WorkflowValidator
validator = record { max_nodes = 100; is_expression = λ e. true; digest_of = λ d. d.workflow_id }

abbrev validated : WorkflowValidation
validated = record {
  workflow_id = "quotes";
  version = "1.0.0";
  digest = "quotes";
  topological_order = "fetch" ∷ "is_open" ∷ "report" ∷ [];
  referenced_workflows = [];
}

checked-validated : validate validator checked none ≡ ok validated
unfolding validate topological_order sorted lookup insert cut
checked-validated = refl

validate_lem_example : IsValidated checked ("fetch" ∷ "is_open" ∷ "report" ∷ [])
validate_lem_example = validate_lem validator checked none validated checked-validated
