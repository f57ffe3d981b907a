-- ===== src/Workflow/Runs.antt =====
-- What workflow_runs.py shares between the runs of workflows and the runs of nodes: the transitions,
-- the tests on identifiers, times and reasons, and the tables. A time is its number of microseconds, with
-- whether the value has a time zone; a stored time is the number. A status is stored as its text.
pub mod Workflows
pub mod Nodes
use brain_inspired_agent.Prelude.{
  ℕ, String, count, Bool, true, false, not, ◌&&◌, ◌||◌, Option, none, some, List, [], ◌∷◌, any, has,
  ltb, str_eq, Result, ok, raise, reject_if, ◌>>◌,
}

pub data RunStateError : Type 0 where
  invalid_identifier naive_time deadline_not_after_creation already_exists : RunStateError
  run_not_found unknown_status event_of_another_transition invalid_transition : RunStateError
  invalid_reason error_id_missing error_id_not_allowed version_conflict swap_failed : RunStateError
  attempt_not_positive attempt_not_sequential output_without_success : RunStateError
  inline_output_without_success two_outputs output_too_long : RunStateError
  -- A constraint of the database that the repository does not catch.
  integrity_error : RunStateError

pub record DateTime : Type 0 where
  pub instant : ℕ
  pub aware : Bool

-- `_timestamp`.
pub timestamp : DateTime → Result RunStateError ℕ
timestamp t = reject_if (not t.aware) naive_time >> ok t.instant

-- `_identity`.
pub identity : List String → Result RunStateError (Unit {0})
identity values = reject_if (any (λ v. str_eq v "" || ltb 255 (count v)) values) invalid_identifier

abbrev error_states : List String
error_states = "FAILED" ∷ "TIMED_OUT" ∷ "REQUIRES_REVIEW" ∷ []

abbrev given : Option String → Bool
given none = false
given (some e) = true

abbrev not_empty : Option String → Bool
not_empty none = false
not_empty (some e) = not (str_eq e "")

-- `_transition_fields`, on the text of the status.
unfoldable pub transition_fields : String → String → Option String → Result RunStateError (Unit {0})
transition_fields status reason error_id =
    reject_if (str_eq reason "" || ltb 500 (count reason)) invalid_reason
    >> (reject_if (has status error_states && not (not_empty error_id)) error_id_missing
        >> reject_if (not (has status error_states) && given error_id) error_id_not_allowed)

pub record RunTransition : Type 0 where
  pub transition_id : String
  pub from_status : Option String
  pub to_status : String
  pub reason : String
  pub version : ℕ
  pub event_id : String
  pub occurred_at : ℕ
  pub error_id : Option String
  pub correlation_id : String

-- The identifiers of a transition are unique in its table.
abbrev pub taken : String → String → List RunTransition → Bool
taken transition_id event_id ts =
    any (λ t. str_eq t.transition_id transition_id || str_eq t.event_id event_id) ts
