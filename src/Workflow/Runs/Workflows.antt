-- ===== src/Workflow/Runs/Workflows.antt =====
-- The runs of workflows in workflow_runs.py: `create_workflow`, `transition_workflow`, `get_workflow`
-- and `workflow_history`. The tables are the rows in insertion order; an operation gives its result with the
-- tables after it, and after an exception the caller rolls its transaction back. The `task` table is
-- the list of its identifiers.
mod Rows
pub mod Replay
pub mod Laws
pub mod Projection
pub mod Swap
pub mod Deliver
mod Tests
use brain_inspired_agent.Prelude.{
  ℕ, ◌+◌, String, Bool, true, false, not, ◌&&◌, ◌||◌, Option, none, some, List, [], ◌∷◌, ◌++◌, map,
  filter, find?, length, any, has, ltb, leb, ◌==◌, str_eq, if◌then◌else◌, Result, ok, raise, ◌>>=◌,
  ◌>>◌, reject_if,
}
use brain_inspired_agent.Prelude.Sort.{sorted}
use brain_inspired_agent.Workflow.Runs.{
  RunStateError, deadline_not_after_creation, already_exists, run_not_found, unknown_status,
  event_of_another_transition, invalid_transition, version_conflict, swap_failed, integrity_error,
  DateTime, timestamp, identity, transition_fields, RunTransition, taken,
}
pub use Rows.*

abbrev pub select_run : String → List WorkflowRow → Option WorkflowRow
select_run run_id rows = find? (λ r. str_eq r.run_id run_id) rows

-- `_workflow`.
pub workflow : WorkflowRow → Result RunStateError WorkflowRun
workflow row = elim (parse row.status) [
  | none ↦ raise unknown_status
  | some s ↦ ok (record { row = row; status = s })
]

pub get_workflow : String → Store → Result RunStateError WorkflowRun
unfolding workflow
get_workflow run_id db = elim (select_run run_id db.runs) [
  | none ↦ raise run_not_found
  | some row ↦ workflow row
]

-- The transitions of a run in the order of their insertion, and of their versions.
abbrev pub transitions_of : String → List (String × RunTransition) → List RunTransition
transitions_of run_id [] = []
transitions_of run_id ((key, t) ∷ rest) =
    let others = transitions_of run_id rest in if str_eq key run_id then t ∷ others else others

abbrev pub version_lt : RunTransition → RunTransition → Bool
version_lt a b = ltb a.version b.version

pub workflow_history : String → Store → List RunTransition
workflow_history run_id db = sorted version_lt (transitions_of run_id db.log)

-- `_workflow_event`.
abbrev pub workflow_event : String → List (String × RunTransition) → Option (String × RunTransition)
workflow_event event_id log = find? (λ entry. str_eq entry.1.event_id event_id) log

abbrev pub is_run : String → List WorkflowRow → Bool
is_run run_id rows = any (λ r. str_eq r.run_id run_id) rows

abbrev is_parent : Option String → String → List WorkflowRow → Bool
is_parent none run_id rows = true
is_parent (some parent) run_id rows = str_eq parent run_id || is_run parent rows

abbrev pub all_transitions : List (String × RunTransition) → List RunTransition
all_transitions log = map (λ entry. entry.1) log

-- `INSERT INTO workflow_run_transition`.
pub insert_transition : RunStateError → String → RunTransition → Store → Result RunStateError Store
insert_transition e run_id t db =
    reject_if (taken t.transition_id t.event_id (all_transitions db.log)) e
    >> ok (record db { log = db.log ++ (run_id, t) ∷ [] })

abbrev pub new_row : CreateWorkflow → ℕ → ℕ → WorkflowRow
new_row c deadline created = record {
  run_id = c.run_id;
  task_id = c.task_id;
  workflow_id = c.workflow_id;
  workflow_version = c.workflow_version;
  workflow_digest = c.workflow_digest;
  input_digest = c.input_digest;
  status = text_of pending;
  version = 0;
  parent_run_id = c.parent_run_id;
  deadline = deadline;
  created_at = created;
  started_at = none;
  finished_at = none;
  error_id = none;
  correlation_id = c.correlation_id;
}

abbrev pub created_transition : CreateWorkflow → ℕ → RunTransition
created_transition c created = record {
  transition_id = c.transition_id;
  from_status = none;
  to_status = text_of pending;
  reason = "created";
  version = 0;
  event_id = c.event_id;
  occurred_at = created;
  error_id = none;
  correlation_id = c.correlation_id;
}

abbrev pub with_result : String → Store → Result RunStateError (WorkflowRun × Store)
with_result run_id db = get_workflow run_id db >>= λ run. ok (run, db)

pub create_workflow : CreateWorkflow → Store → Result RunStateError (WorkflowRun × Store)
unfolding identity timestamp insert_transition get_workflow
create_workflow c db = do
  identity (c.run_id ∷ c.task_id ∷ c.workflow_id ∷ c.workflow_version ∷ c.correlation_id ∷ [])
  deadline ← timestamp c.deadline
  created ← timestamp c.created_at
  reject_if (leb c.deadline.instant c.created_at.instant) deadline_not_after_creation
  reject_if
      (is_run c.run_id db.runs
        || (not (has c.task_id db.tasks) || not (is_parent c.parent_run_id c.run_id db.runs)))
      already_exists
  db' ←
      insert_transition already_exists c.run_id (created_transition c created)
        (record db { runs = db.runs ++ new_row c deadline created ∷ [] })
  with_result c.run_id db'

-- `UPDATE ... WHERE`, with the number of rows that it changed.
abbrev pub update_rows :
    (WorkflowRow → Bool) → (WorkflowRow → WorkflowRow) → List WorkflowRow → List WorkflowRow
update_rows p f rows = map (λ r. if p r then f r else r) rows

abbrev pub swaps : TransitionWorkflow → WorkflowRun → WorkflowRow → Bool
swaps t current r =
    str_eq r.run_id t.run_id
    && (r.version == t.expected_version && str_eq r.status (text_of current.status))

abbrev pub moved_row : TransitionWorkflow → WorkflowRun → ℕ → WorkflowRow → WorkflowRow
moved_row t current occurred r = record r {
  status = text_of t.to_status;
  version = t.expected_version + 1;
  started_at =
      if str_eq (text_of t.to_status) (text_of running)
      then some occurred
      else current.row.started_at;
  finished_at = if is_member t.to_status terminal then some occurred else none;
  error_id = t.error_id;
}

abbrev pub next_transition : TransitionWorkflow → WorkflowRun → ℕ → RunTransition
next_transition t current occurred = record {
  transition_id = t.transition_id;
  from_status = some (text_of current.status);
  to_status = text_of t.to_status;
  reason = t.reason;
  version = t.expected_version + 1;
  event_id = t.event_id;
  occurred_at = occurred;
  error_id = t.error_id;
  correlation_id = current.row.correlation_id;
}

-- The tests and the writes of a transition whose event is new.
pub move_workflow :
    TransitionWorkflow → WorkflowRun → Store → Result RunStateError (WorkflowRun × Store)
unfolding transition_fields timestamp insert_transition get_workflow
move_workflow t current db = do
  reject_if (not (is_member t.to_status (transitions current.status))) invalid_transition
  transition_fields (text_of t.to_status) t.reason t.error_id
  reject_if (not (current.row.version == t.expected_version)) version_conflict
  occurred ← timestamp t.occurred_at
  reject_if (not (length (filter (swaps t current) db.runs) == 1)) swap_failed
  db' ←
      insert_transition integrity_error t.run_id (next_transition t current occurred)
        (record db { runs = update_rows (swaps t current) (moved_row t current occurred) db.runs })
  with_result t.run_id db'

pub transition_workflow : TransitionWorkflow → Store → Result RunStateError (WorkflowRun × Store)
unfolding get_workflow move_workflow
transition_workflow t db = get_workflow t.run_id db >>= λ current.
    elim (workflow_event t.event_id db.log) [
      | none ↦ move_workflow t current db
      | some (run_id, duplicate) ↦
          if str_eq run_id t.run_id && str_eq duplicate.to_status (text_of t.to_status)
          then ok (current, db)
          else raise event_of_another_transition
    ]

-- A call of one of the operations that write, and the tables after calls, each of them rolled back where
-- it raises.
pub data Call : Type 0 where
  create_call : CreateWorkflow → Call
  transition_call : TransitionWorkflow → Call

abbrev pub after : Store → Result RunStateError (WorkflowRun × Store) → Store
after db (ok (run, db')) = db'
after db (raise e) = db

pub call : Call → Store → Store
unfolding create_workflow transition_workflow
call (create_call c) db = after db (create_workflow c db)
call (transition_call t) db = after db (transition_workflow t db)

pub calls : List Call → Store → Store
unfolding call
calls [] db = db
calls (c ∷ cs) db = calls cs (call c db)

abbrev pub empty : List String → Store
empty tasks = record { tasks = tasks; runs = []; log = [] }
