-- ===== src/Workflow/Runs/Nodes.antt =====
-- The runs of nodes in workflow_runs.py: `create_node`, `transition_node`, `get_node` and
-- `node_history`. The tables are the rows in insertion order, with the identifiers of the workflow runs; after
-- an exception the caller rolls its transaction back. An inline output and the usage are the texts that
-- `json.dumps` gives, which are ASCII.
mod Rows
pub mod Attempts
pub mod Calls
mod Tests
use brain_inspired_agent.Prelude.{
  ℕ, ◌+◌, String, len, Bool, true, false, not, ◌&&◌, ◌||◌, Option, none, some, List, [], ◌∷◌, ◌++◌,
  map, filter, find?, length, any, has, ltb, leb, ◌==◌, str_eq, if◌then◌else◌, Result, ok, raise,
  ◌>>=◌, ◌>>◌, reject_if,
}
use brain_inspired_agent.Prelude.Sort.{sorted}
use brain_inspired_agent.Workflow.Runs.{
  RunStateError, already_exists, run_not_found, unknown_status, event_of_another_transition,
  invalid_transition, version_conflict, swap_failed, integrity_error, attempt_not_positive,
  attempt_not_sequential, output_without_success, inline_output_without_success, two_outputs,
  output_too_long, DateTime, timestamp, identity, transition_fields, RunTransition, taken,
}
pub use Rows.*

abbrev pub same_node : String → String → NodeRow → Bool
same_node run_id node_id r = str_eq r.run_id run_id && str_eq r.node_id node_id

abbrev pub has_key : NodeKey → NodeRow → Bool
has_key key r = same_node key.run_id key.node_id r && r.attempt == key.attempt

-- `ORDER BY attempt DESC LIMIT 1`.
abbrev pub later : NodeRow → Option NodeRow → Option NodeRow
later r none = some r
later r (some best) = if ltb r.attempt best.attempt then some best else some r

abbrev pub latest : List NodeRow → Option NodeRow
latest [] = none
latest (r ∷ rows) = later r (latest rows)

abbrev pub attempts_of : String → String → List NodeRow → List NodeRow
attempts_of run_id node_id rows = filter (same_node run_id node_id) rows

-- `_node`.
pub node : NodeRow → Result RunStateError NodeRun
node row = elim (parse row.status) [
  | none ↦ raise unknown_status
  | some s ↦ ok (record { row = row; status = s })
]

pub get_node : NodeKey → NodeStore → Result RunStateError NodeRun
unfolding node
get_node key db = elim (find? (has_key key) db.nodes) [
  | none ↦ raise run_not_found
  | some row ↦ node row
]

abbrev same_key : NodeKey → NodeKey → Bool
same_key a b = str_eq a.run_id b.run_id && (str_eq a.node_id b.node_id && a.attempt == b.attempt)

abbrev history_rows : NodeKey → List (NodeKey × RunTransition) → List RunTransition
history_rows key [] = []
history_rows key ((k, t) ∷ rest) =
    let others = history_rows key rest in if same_key k key then t ∷ others else others

pub node_history : NodeKey → NodeStore → List RunTransition
node_history key db = sorted (λ a b. ltb a.version b.version) (history_rows key db.log)

-- `_node_event`.
abbrev pub node_event : String → List (NodeKey × RunTransition) → Option (NodeKey × RunTransition)
node_event event_id log = find? (λ entry. str_eq entry.1.event_id event_id) log

abbrev all_transitions : List (NodeKey × RunTransition) → List RunTransition
all_transitions log = map (λ entry. entry.1) log

-- `INSERT INTO node_run_transition`.
pub insert_transition :
    RunStateError → NodeKey → RunTransition → NodeStore → Result RunStateError NodeStore
insert_transition e key t db =
    reject_if (taken t.transition_id t.event_id (all_transitions db.log)) e
    >> ok (record db { log = db.log ++ (key, t) ∷ [] })

abbrev pub new_row : CreateNode → ℕ → NodeRow
new_row c created = record {
  run_id = c.key.run_id;
  node_id = c.key.node_id;
  attempt = c.key.attempt;
  status = text_of pending;
  version = 0;
  skill_binding_id = c.skill_binding_id;
  input_artifact_id = c.input_artifact_id;
  output_artifact_id = none;
  output_json = none;
  error_id = none;
  usage_json = none;
  created_at = created;
  started_at = none;
  finished_at = none;
  correlation_id = c.correlation_id;
}

abbrev pub created_transition : CreateNode → ℕ → RunTransition
created_transition c created = record {
  transition_id = c.transition_id;
  from_status = none;
  to_status = text_of pending;
  reason = "created";
  version = 0;
  event_id = c.event_id;
  occurred_at = created;
  error_id = none;
  correlation_id = c.correlation_id;
}

abbrev pub with_result : NodeKey → NodeStore → Result RunStateError (NodeRun × NodeStore)
with_result key db = get_node key db >>= λ run. ok (run, db)

-- Attempts are sequential and follow a terminal attempt.
pub check_attempt : ℕ → Option NodeRow → Result RunStateError (Unit {0})
check_attempt attempt none = reject_if (not (attempt == 1)) attempt_not_sequential
check_attempt attempt (some previous) =
    reject_if (not (attempt == previous.attempt + 1)) attempt_not_sequential
    >> elim (parse previous.status) [
      | none ↦ raise unknown_status
      | some s ↦ reject_if (not (is_member s terminal)) attempt_not_sequential
    ]

pub create_node : CreateNode → NodeStore → Result RunStateError (NodeRun × NodeStore)
unfolding identity timestamp insert_transition get_node check_attempt
create_node c db = do
  identity (c.key.run_id ∷ c.key.node_id ∷ c.correlation_id ∷ [])
  reject_if (ltb c.key.attempt 1) attempt_not_positive
  check_attempt c.key.attempt (latest (attempts_of c.key.run_id c.key.node_id db.nodes))
  created ← timestamp c.created_at
  reject_if (any (has_key c.key) db.nodes || not (has c.key.run_id db.workflow_runs)) already_exists
  db' ←
      insert_transition already_exists c.key (created_transition c created)
        (record db { nodes = db.nodes ++ new_row c created ∷ [] })
  with_result c.key db'

abbrev pub swaps : TransitionNode → NodeRun → NodeRow → Bool
swaps t current r =
    has_key t.key r && (r.version == t.expected_version && str_eq r.status (text_of current.status))

-- `COALESCE`.
abbrev coalesce : Option String → Option String → Option String
coalesce (some a) b = some a
coalesce none b = b

abbrev pub moved_row : TransitionNode → NodeRun → ℕ → NodeRow → NodeRow
moved_row t current occurred r = record r {
  status = text_of t.to_status;
  version = t.expected_version + 1;
  started_at =
      if str_eq (text_of t.to_status) (text_of running)
      then some occurred
      else current.row.started_at;
  finished_at = if is_member t.to_status terminal then some occurred else none;
  error_id = t.error_id;
  output_artifact_id = coalesce t.output_artifact_id r.output_artifact_id;
  output_json = coalesce t.inline_output r.output_json;
  usage_json = coalesce t.usage r.usage_json;
}

abbrev pub next_transition : TransitionNode → NodeRun → ℕ → RunTransition
next_transition t current occurred = record {
  transition_id = t.transition_id;
  from_status = some (text_of current.status);
  to_status = text_of t.to_status;
  reason = t.reason;
  version = t.expected_version + 1;
  event_id = t.event_id;
  occurred_at = occurred;
  error_id = t.error_id;
  correlation_id = current.row.correlation_id;
}

abbrev given : Option String → Bool
given none = false
given (some x) = true

abbrev longer : ℕ → Option String → Bool
longer n none = false
longer n (some x) = ltb n (len x)

-- Only a successful node attaches an output, of one kind.
pub check_outputs : TransitionNode → Result RunStateError (Unit {0})
check_outputs t =
    let success = str_eq (text_of t.to_status) (text_of succeeded) in
    reject_if (given t.output_artifact_id && not success) output_without_success
    >> (reject_if (given t.inline_output && not success) inline_output_without_success
        >> reject_if (given t.inline_output && given t.output_artifact_id) two_outputs)

-- The tests and the writes of a transition whose event is new.
pub move_node : TransitionNode → NodeRun → NodeStore → Result RunStateError (NodeRun × NodeStore)
unfolding transition_fields timestamp insert_transition get_node check_outputs
move_node t current db = do
  reject_if (not (is_member t.to_status (transitions current.status))) invalid_transition
  transition_fields (text_of t.to_status) t.reason t.error_id
  reject_if (not (current.row.version == t.expected_version)) version_conflict
  check_outputs t
  occurred ← timestamp t.occurred_at
  reject_if (longer 1048576 t.inline_output) output_too_long
  reject_if (not (length (filter (swaps t current) db.nodes) == 1)) swap_failed
  db' ← insert_transition integrity_error t.key (next_transition t current occurred) (record db {
    nodes = map (λ r. if swaps t current r then moved_row t current occurred r else r) db.nodes;
  })
  with_result t.key db'

pub transition_node : TransitionNode → NodeStore → Result RunStateError (NodeRun × NodeStore)
unfolding get_node move_node
transition_node t db = get_node t.key db >>= λ current. elim (node_event t.event_id db.log) [
  | none ↦ move_node t current db
  | some (key, duplicate) ↦
      if same_key key t.key && str_eq duplicate.to_status (text_of t.to_status)
      then ok (current, db)
      else raise event_of_another_transition
]

-- A call of one of the operations that write, and the tables after calls, each of them rolled back where
-- it raises.
pub data Call : Type 0 where
  create_call : CreateNode → Call
  transition_call : TransitionNode → Call

abbrev pub after : NodeStore → Result RunStateError (NodeRun × NodeStore) → NodeStore
after db (ok (run, db')) = db'
after db (raise e) = db

pub call : Call → NodeStore → NodeStore
unfolding create_node transition_node
call (create_call c) db = after db (create_node c db)
call (transition_call t) db = after db (transition_node t db)

pub calls : List Call → NodeStore → NodeStore
unfolding call
calls [] db = db
calls (c ∷ cs) db = calls cs (call c db)

abbrev pub empty : List String → NodeStore
empty workflow_runs = record { workflow_runs = workflow_runs; nodes = []; log = [] }
