-- ===== src/Workflow/Runs/Workflows/Rows.antt =====
-- The statuses of a workflow's run and the moves between them, its row, and what its operations take.
use brain_inspired_agent.Prelude.{ℕ, String, Bool, Option, List, [], ◌∷◌, find?, any, str_eq}
use brain_inspired_agent.Workflow.Runs.{DateTime, RunTransition}

pub data WorkflowRunStatus : Type 0 where
  pending ready running succeeded failed timed_out cancelled : WorkflowRunStatus

abbrev pub text_of : WorkflowRunStatus → String
text_of pending = "PENDING"
text_of ready = "READY"
text_of running = "RUNNING"
text_of succeeded = "SUCCEEDED"
text_of failed = "FAILED"
text_of timed_out = "TIMED_OUT"
text_of cancelled = "CANCELLED"

-- The members of the enumeration.
abbrev pub statuses : List WorkflowRunStatus
statuses = pending ∷ ready ∷ running ∷ succeeded ∷ failed ∷ timed_out ∷ cancelled ∷ []

-- `WorkflowRunStatus(text)`.
abbrev pub parse : String → Option WorkflowRunStatus
parse t = find? (λ s. str_eq (text_of s) t) statuses

abbrev pub is_member : WorkflowRunStatus → List WorkflowRunStatus → Bool
is_member s ss = any (λ t. str_eq (text_of s) (text_of t)) ss

abbrev pub terminal : List WorkflowRunStatus
terminal = succeeded ∷ failed ∷ timed_out ∷ cancelled ∷ []

-- `_WORKFLOW_TRANSITIONS`, the empty set where there is no entry.
abbrev pub transitions : WorkflowRunStatus → List WorkflowRunStatus
transitions pending = ready ∷ cancelled ∷ []
transitions ready = running ∷ cancelled ∷ timed_out ∷ []
transitions running = terminal
transitions _ = []

-- A row of `workflow_run`, and the run that is read from it: the same fields, with the status parsed.
pub record WorkflowRow : Type 0 where
  pub run_id : String
  pub task_id : String
  pub workflow_id : String
  pub workflow_version : String
  pub workflow_digest : String
  pub input_digest : String
  pub status : String
  pub version : ℕ
  pub parent_run_id : Option String
  pub deadline : ℕ
  pub created_at : ℕ
  pub started_at : Option ℕ
  pub finished_at : Option ℕ
  pub error_id : Option String
  pub correlation_id : String

pub record WorkflowRun : Type 0 where
  pub row : WorkflowRow
  pub status : WorkflowRunStatus

pub record Store : Type 0 where
  pub tasks : List String
  pub runs : List WorkflowRow
  pub log : List (String × RunTransition)

pub record CreateWorkflow : Type 0 where
  pub run_id : String
  pub task_id : String
  pub workflow_id : String
  pub workflow_version : String
  pub workflow_digest : String
  pub input_digest : String
  pub deadline : DateTime
  pub created_at : DateTime
  pub correlation_id : String
  pub transition_id : String
  pub event_id : String
  pub parent_run_id : Option String

pub record TransitionWorkflow : Type 0 where
  pub run_id : String
  pub to_status : WorkflowRunStatus
  pub expected_version : ℕ
  pub reason : String
  pub occurred_at : DateTime
  pub transition_id : String
  pub event_id : String
  pub error_id : Option String
