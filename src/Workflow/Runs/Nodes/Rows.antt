-- ===== src/Workflow/Runs/Nodes/Rows.antt =====
-- The statuses of a node's run and the moves between them, its row, and what its operations take.
use brain_inspired_agent.Prelude.{ℕ, String, Bool, Option, List, [], ◌∷◌, find?, any, str_eq}
use brain_inspired_agent.Workflow.Runs.{DateTime, RunTransition}

pub data NodeRunStatus : Type 0 where
  pending ready running succeeded failed timed_out cancelled skipped requires_review : NodeRunStatus

abbrev pub text_of : NodeRunStatus → String
text_of pending = "PENDING"
text_of ready = "READY"
text_of running = "RUNNING"
text_of succeeded = "SUCCEEDED"
text_of failed = "FAILED"
text_of timed_out = "TIMED_OUT"
text_of cancelled = "CANCELLED"
text_of skipped = "SKIPPED"
text_of requires_review = "REQUIRES_REVIEW"

-- The members of the enumeration.
abbrev pub statuses : List NodeRunStatus
statuses =
    pending ∷ ready ∷ running ∷ succeeded ∷ failed ∷ timed_out ∷ cancelled ∷ skipped
    ∷ requires_review ∷ []

-- `NodeRunStatus(text)`.
abbrev pub parse : String → Option NodeRunStatus
parse t = find? (λ s. str_eq (text_of s) t) statuses

abbrev pub is_member : NodeRunStatus → List NodeRunStatus → Bool
is_member s ss = any (λ t. str_eq (text_of s) (text_of t)) ss

abbrev pub terminal : List NodeRunStatus
terminal = succeeded ∷ failed ∷ timed_out ∷ cancelled ∷ skipped ∷ requires_review ∷ []

-- `_NODE_TRANSITIONS`, the empty set where there is no entry.
abbrev pub transitions : NodeRunStatus → List NodeRunStatus
transitions pending = ready ∷ skipped ∷ cancelled ∷ []
transitions ready = running ∷ skipped ∷ cancelled ∷ timed_out ∷ []
transitions running = terminal
transitions _ = []

-- A row of `node_run`, and the run that is read from it: the same fields, with the status parsed.
pub record NodeRow : Type 0 where
  pub run_id : String
  pub node_id : String
  pub attempt : ℕ
  pub status : String
  pub version : ℕ
  pub skill_binding_id : Option String
  pub input_artifact_id : Option String
  pub output_artifact_id : Option String
  pub output_json : Option String
  pub error_id : Option String
  pub usage_json : Option String
  pub created_at : ℕ
  pub started_at : Option ℕ
  pub finished_at : Option ℕ
  pub correlation_id : String

pub record NodeRun : Type 0 where
  pub row : NodeRow
  pub status : NodeRunStatus

-- The primary key of a run.
pub record NodeKey : Type 0 where
  pub run_id : String
  pub node_id : String
  pub attempt : ℕ

pub record NodeStore : Type 0 where
  pub workflow_runs : List String
  pub nodes : List NodeRow
  pub log : List (NodeKey × RunTransition)

pub record CreateNode : Type 0 where
  pub key : NodeKey
  pub created_at : DateTime
  pub correlation_id : String
  pub transition_id : String
  pub event_id : String
  pub skill_binding_id : Option String
  pub input_artifact_id : Option String

pub record TransitionNode : Type 0 where
  pub key : NodeKey
  pub to_status : NodeRunStatus
  pub expected_version : ℕ
  pub reason : String
  pub occurred_at : DateTime
  pub transition_id : String
  pub event_id : String
  pub error_id : Option String
  pub output_artifact_id : Option String
  pub inline_output : Option String
  pub usage : Option String
