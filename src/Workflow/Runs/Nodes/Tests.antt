-- ===== src/Workflow/Runs/Nodes/Tests.antt =====
-- A node that fails and is tried again.
use brain_inspired_agent.Prelude.{
  ℕ, String, ◌≡◌, refl, true, Option, none, some, List, [], ◌∷◌, length,
}
use brain_inspired_agent.Workflow.Runs.Nodes.{
  NodeRunStatus, ready, running, failed, NodeKey, Call, create_call, transition_call, calls, empty,
  attempts_of,
}
use brain_inspired_agent.Workflow.Runs.Nodes.Attempts.{sequential}
use brain_inspired_agent.Workflow.Runs.Nodes.Calls.{attempts-calls}

abbrev key : ℕ → NodeKey
key n = record { run_id = "run-1"; node_id = "fetch"; attempt = n }

abbrev try : ℕ → String → Call
try n id = create_call (record {
  key = key n;
  created_at = record { instant = 100; aware = true };
  correlation_id = "c-1";
  transition_id = id;
  event_id = id;
  skill_binding_id = none;
  input_artifact_id = none;
})

abbrev move : ℕ → ℕ → NodeRunStatus → String → Option String → Call
move n version status id error = transition_call (record {
  key = key n;
  to_status = status;
  expected_version = version;
  reason = "moved";
  occurred_at = record { instant = 110; aware = true };
  transition_id = id;
  event_id = id;
  error_id = error;
  output_artifact_id = none;
  inline_output = none;
  usage = none;
})

abbrev tried_twice : List Call
tried_twice =
    try 1 "e-0"
    ∷ move 1 0 ready "e-1" none
    ∷ move 1 1 running "e-2" none
    ∷ try 2 "early"
    ∷ move 1 2 failed "e-3" (some "err-1")
    ∷ try 2 "e-4"
    ∷ []

two_attempts :
    length (attempts_of "run-1" "fetch" (calls tried_twice (empty ("run-1" ∷ []))).nodes) ≡ 2
unfolding calls
two_attempts = refl

attempts-calls_example :
    sequential 0 (attempts_of "run-1" "fetch" (calls tried_twice (empty ("run-1" ∷ []))).nodes)
    ≡ true
attempts-calls_example = attempts-calls ("run-1" ∷ []) tried_twice "run-1" "fetch"
