-- ===== src/Planning/Validation.antt =====
-- `PlanValidator.validate` of plan_validation.py with `CandidatePlan.create` of planning.py. A document has
-- been read into a record; that it fits the plan's JSON schema, that parameters fit the input schema of a
-- workflow, and the digest are parameters. Times are instants.
pub mod Laws
mod Tests
use brain_inspired_agent.Prelude.{
  ℕ, String, Bool, true, false, not, ◌&&◌, ◌||◌, List, [], ◌∷◌, any, has, ltb, count, leb, str_eq,
  Result, ok, raise, ◌>>=◌, ◌>>◌, reject_if, Dict, insert,
}
use brain_inspired_agent.Workflow.Validator.{Definition}
use brain_inspired_agent.Workflow.Registry.{
  Registry, RegistryError, WorkflowDefinition, is_active, get,
}
use brain_inspired_agent.Planning.Acyclic.{PlanGraphError, Search, assert_acyclic}

pub record PlanTask : Type 0 where
  pub task_id : String
  pub depends_on : List String
  pub workflow_id : String
  pub workflow_version : String
  pub params : String
  pub deadline : ℕ
  pub priority : ℕ

pub record PlanDocument : Type 0 where
  pub status : String
  pub plan_id : String
  pub correlation_id : String
  pub created_at : ℕ
  pub expires_at : ℕ
  pub tasks : List PlanTask

pub record CandidatePlan : Type 0 where
  pub plan_id : String
  pub document : PlanDocument
  pub digest : String
  pub created_at : ℕ
  pub expires_at : ℕ
  pub correlation_id : String

pub record ValidatedTask : Type 0 where
  pub task_id : String
  pub workflow : WorkflowDefinition
  pub params : String
  pub deadline : ℕ
  pub priority : ℕ

pub record ValidatedPlan : Type 0 where
  pub plan : CandidatePlan
  pub tasks : List ValidatedTask

pub data PlanError : Type 0 where
  schema_invalid plan_expired unknown_dependency workflow_not_found : PlanError
  workflow_not_allowed parameter_invalid deadline_outside : PlanError
  graph_invalid : PlanGraphError → PlanError

pub record PlanValidator : Type 0 where
  pub registry : Registry
  pub fits_schema : PlanDocument → Bool
  pub fits_input : Definition → String → Bool
  pub digest_of : PlanDocument → String

-- What `_text` refuses: no characters, or more than 255.
abbrev pub is_bad_text : String → Bool
is_bad_text t = str_eq t "" || ltb 255 (count t)

-- `CandidatePlan.create`.
unfoldable pub create_plan : (PlanDocument → String) → PlanDocument → Result PlanError CandidatePlan
create_plan digest_of d =
    reject_if (not (str_eq d.status "CANDIDATE")) schema_invalid
    >> (reject_if (is_bad_text d.plan_id || is_bad_text d.correlation_id) schema_invalid
        >> (reject_if (leb d.expires_at d.created_at) schema_invalid
            >> ok (record {
              plan_id = d.plan_id;
              document = d;
              digest = digest_of d;
              created_at = d.created_at;
              expires_at = d.expires_at;
              correlation_id = d.correlation_id;
            })))

abbrev from_registry : Result RegistryError WorkflowDefinition → Result PlanError WorkflowDefinition
from_registry (ok w) = ok w
from_registry (raise e) = raise workflow_not_found

abbrev pub validated_task : PlanTask → WorkflowDefinition → ValidatedTask
validated_task t w = record {
  task_id = t.task_id;
  workflow = w;
  params = t.params;
  deadline = t.deadline;
  priority = t.priority;
}

-- One round of the loop over the tasks.
pub check_task : PlanValidator → ℕ → ℕ → List String → PlanTask → Result PlanError ValidatedTask
check_task v now expires_at ids t =
    reject_if (any (λ d. not (has d ids)) t.depends_on) unknown_dependency
    >> (from_registry (get t.workflow_id t.workflow_version v.registry) >>= λ w.
        reject_if (not (is_active w.status)) workflow_not_allowed
        >> (reject_if (not (v.fits_input w.definition t.params)) parameter_invalid
            >> (reject_if (not (leb t.deadline expires_at) || leb t.deadline now) deadline_outside
                >> ok (validated_task t w))))

pub check_tasks :
    PlanValidator → ℕ → ℕ → List String → List PlanTask → Result PlanError (List ValidatedTask)
unfolding check_task
check_tasks v now expires_at ids [] = ok []
check_tasks v now expires_at ids (t ∷ ts) = check_task v now expires_at ids t >>= λ first.
    check_tasks v now expires_at ids ts >>= λ rest. ok (first ∷ rest)

abbrev pub task_ids : List PlanTask → List String
task_ids [] = []
task_ids (t ∷ ts) = t.task_id ∷ task_ids ts

-- `edges[task_id] = dependencies`, for each task.
abbrev pub edges_of : List PlanTask → Dict (List String) → Dict (List String)
edges_of [] edges = edges
edges_of (t ∷ ts) edges = edges_of ts (insert t.task_id t.depends_on edges)

abbrev from_graph : Result PlanGraphError Search → Result PlanError Search
from_graph (ok s) = ok s
from_graph (raise e) = raise (graph_invalid e)

unfoldable pub validate_plan : PlanValidator → ℕ → PlanDocument → Result PlanError ValidatedPlan
unfolding create_plan check_tasks
validate_plan v now d =
    reject_if (not (v.fits_schema d)) schema_invalid
    >> (create_plan v.digest_of d >>= λ plan.
        reject_if (leb plan.expires_at now) plan_expired
        >> (check_tasks v now plan.expires_at (task_ids d.tasks) d.tasks >>= λ tasks.
            from_graph (assert_acyclic (edges_of d.tasks [])) >>= λ s.
            ok (record { plan = plan; tasks = tasks })))
