-- ===== src/Workflow/Registry/Tests.antt =====
-- Two versions of a workflow, the second activated after the first.
use brain_inspired_agent.Prelude.{
  String, ◌≡◌, ◌≢◌, refl, true, none, some, List, [], ◌∷◌, ok, raise, lookup, insert,
}
use brain_inspired_agent.Prelude.Int.{pos}
use brain_inspired_agent.Prelude.Sort.{sorted}
use brain_inspired_agent.Prelude.Texts.{cut}
use brain_inspired_agent.Prelude.Pairs.{find_pair, put_pair}
use brain_inspired_agent.Workflow.Graph.{topological_order}
use brain_inspired_agent.Workflow.Validator.{validate, skill, Definition, WorkflowValidator}
use brain_inspired_agent.Workflow.Registry.{
  WorkflowDefinition, draft, active, is_active, key_error, empty, Call, register_call,
  activate_call, calls, call, get, activate, active_of,
}
use brain_inspired_agent.Workflow.Registry.Active.{calls_lem}
use brain_inspired_agent.Workflow.Registry.Once.{contents, get-calls}

abbrev version_of : String → Definition
version_of v = record {
  spec_version = "1.0";
  workflow_id = "quotes";
  version = v;
  name = "Quotes";
  timeout = pos 600;
  max_parallelism = pos 2;
  required_capabilities = "market.quote" ∷ [];
  nodes =
      record {
        node_id = "fetch";
        depends_on = [];
        timeout = none;
        body = skill "market.quote" "1.0" (some "PURE");
      }
      ∷ [];
  output_mapping = [];
}

abbrev validator : WorkflowValidator
validator = record { max_nodes = 100; is_expression = λ e. true; digest_of = λ d. d.version }

abbrev first_call : Call
first_call = register_call (version_of "1.0.0") draft

abbrev later_calls : List Call
later_calls =
    register_call (version_of "1.1.0") draft
    ∷ activate_call "quotes" "1.0.0"
    ∷ activate_call "quotes" "1.1.0"
    ∷ []

abbrev item : WorkflowDefinition
item = record {
  workflow_id = "quotes";
  version = "1.0.0";
  status = draft;
  digest = "1.0.0";
  definition = version_of "1.0.0";
  validation = record {
    workflow_id = "quotes";
    version = "1.0.0";
    digest = "1.0.0";
    topological_order = "fetch" ∷ [];
    referenced_workflows = [];
  };
}

registered : get "quotes" "1.0.0" (call first_call (empty validator)) ≡ ok item
unfolding get call validate topological_order sorted lookup insert cut find_pair put_pair
registered = refl

get-calls_example :
    (item' : WorkflowDefinition) × (get "quotes" "1.0.0"
        (calls later_calls (call first_call (empty validator)))
      ≡ ok item')
    × (contents item' ≡ contents item)
get-calls_example =
    get-calls later_calls "quotes" "1.0.0" (call first_call (empty validator)) item registered

calls_lem_example :
    ((a b : String) (x y : WorkflowDefinition)
      → get "quotes" a (calls (first_call ∷ later_calls) (empty validator)) ≡ ok x
      → get "quotes" b (calls (first_call ∷ later_calls) (empty validator)) ≡ ok y
      → is_active x.status ≡ true
      → is_active y.status ≡ true
      → (a ≡ b) × (active_of "quotes" (calls (first_call ∷ later_calls) (empty validator)) ≡ ok x))
    × ((x : WorkflowDefinition)
        → active_of "quotes" (calls (first_call ∷ later_calls) (empty validator)) ≡ ok x
        → is_active x.status ≡ true)
    × (active_of "quotes" (calls (first_call ∷ later_calls) (empty validator)) ≢ raise key_error)
    × ((version : String)
        → activate "quotes" version (calls (first_call ∷ later_calls) (empty validator))
          ≢ raise key_error)
calls_lem_example = calls_lem validator (first_call ∷ later_calls) "quotes"

abbrev now_active : WorkflowDefinition
now_active = record item {
  version = "1.1.0";
  status = active;
  digest = "1.1.0";
  definition = version_of "1.1.0";
  validation = record {
    workflow_id = "quotes";
    version = "1.1.0";
    digest = "1.1.0";
    topological_order = "fetch" ∷ [];
    referenced_workflows = [];
  };
}

active_of_quotes :
    active_of "quotes" (calls (first_call ∷ later_calls) (empty validator)) ≡ ok now_active
unfolding active_of calls validate topological_order sorted lookup insert cut find_pair put_pair
active_of_quotes = refl
