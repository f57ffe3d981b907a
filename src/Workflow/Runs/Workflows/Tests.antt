-- ===== src/Workflow/Runs/Workflows/Tests.antt =====
-- A run that is created, made ready and started.
use brain_inspired_agent.Prelude.{ℕ, ◌≡◌, ◌≢◌, refl, true, none, some, List, [], ◌∷◌, ok, raise}
use brain_inspired_agent.Workflow.Runs.{DateTime, run_not_found, unknown_status, transition_fields}
use brain_inspired_agent.Workflow.Runs.Workflows.{
  ready, running, WorkflowRun, Store, CreateWorkflow, TransitionWorkflow, get_workflow,
  workflow_history, transition_workflow, Call, create_call, transition_call, calls, empty, new_row,
  text_of,
}
use brain_inspired_agent.Workflow.Runs.Workflows.Replay.{replay}
use brain_inspired_agent.Workflow.Runs.Workflows.Projection.{replay-workflow_history}
use brain_inspired_agent.Workflow.Runs.Workflows.Deliver.{transition_workflow_lem}

abbrev at : ℕ → DateTime
at n = record { instant = n; aware = true }

abbrev create : CreateWorkflow
create = record {
  run_id = "run-1";
  task_id = "task-1";
  workflow_id = "quotes";
  workflow_version = "1.0.0";
  workflow_digest = "d";
  input_digest = "i";
  deadline = at 900;
  created_at = at 100;
  correlation_id = "c-1";
  transition_id = "t-0";
  event_id = "e-0";
  parent_run_id = none;
}

abbrev make_ready : TransitionWorkflow
make_ready = record {
  run_id = "run-1";
  to_status = ready;
  expected_version = 0;
  reason = "grant";
  occurred_at = at 110;
  transition_id = "t-1";
  event_id = "e-1";
  error_id = none;
}

abbrev start : TransitionWorkflow
start = record make_ready {
  to_status = running;
  expected_version = 1;
  reason = "start";
  occurred_at = at 120;
  transition_id = "t-2";
  event_id = "e-2";
}

abbrev before : List Call
before = create_call create ∷ transition_call make_ready ∷ []

abbrev ready_run : WorkflowRun
ready_run = record {
  row = record (new_row create 900 100) { status = text_of ready; version = 1 };
  status = ready;
}

found : get_workflow "run-1" (calls before (empty ("task-1" ∷ []))) ≡ ok ready_run
unfolding get_workflow calls
found = refl

transition_workflow_lem_example :
    (run : WorkflowRun) × (db : Store) × (transition_workflow start
        (calls before (empty ("task-1" ∷ [])))
      ≡ ok (run, db))
    × (run.status ≡ running)
    × (run.row.version ≡ 2)
    × (transition_workflow start db ≡ ok (run, db))
unfolding calls transition_fields
transition_workflow_lem_example =
    transition_workflow_lem ("task-1" ∷ []) before start ready_run found refl refl refl refl refl

replay-workflow_history_example :
    ((run : WorkflowRun)
      → get_workflow "run-1" (calls before (empty ("task-1" ∷ []))) ≡ ok run
      → replay (workflow_history "run-1" (calls before (empty ("task-1" ∷ []))))
        ≡ some (run.status, run.row.version))
    × (get_workflow "run-1" (calls before (empty ("task-1" ∷ []))) ≡ raise run_not_found
        → workflow_history "run-1" (calls before (empty ("task-1" ∷ []))) ≡ [])
    × (get_workflow "run-1" (calls before (empty ("task-1" ∷ []))) ≢ raise unknown_status)
replay-workflow_history_example = replay-workflow_history ("task-1" ∷ []) before "run-1"
