-- ===== src/Scheduling/Models.antt =====
-- scheduling/models.py. Instants are whole microseconds; priorities, penalties and costs are whole
-- millionths, which is the precision that the policy rounds to. The constructors' checks that these
-- values are not negative are the type ℕ here.
use brain_inspired_agent.Prelude.{ℕ, String, Bool, Option, List}
use brain_inspired_agent.Prelude.Int.{ℤ}

pub data CandidateKind : Type 0 where
  stimulus run : CandidateKind

pub data WorkClass : Type 0 where
  realtime recovery background diagnostic : WorkClass

pub data SystemMode : Type 0 where
  normal review degraded safe : SystemMode

pub data AdmissionOutcome : Type 0 where
  admit defer reject : AdmissionOutcome

pub record SchedulingCandidate : Type 0 where
  pub candidate_id : String
  pub kind : CandidateKind
  pub work_class : WorkClass
  pub enqueued_at : ℕ
  pub base_priority : ℕ
  pub salience : ℕ
  pub goal_urgency : ℕ
  pub deadline : Option ℕ
  pub estimated_cost : ℕ
  pub conflict_penalty : ℕ
  pub dependency_penalty : ℕ
  pub dependency_ready : Bool
  pub conflict_free : Bool
  pub safe_allowed : Bool

pub record BudgetSnapshot : Type 0 where
  pub mode : SystemMode
  pub available_slots : ℕ
  pub remaining_cost : ℕ
  pub policy_version : String

-- A rule that took part in a decision; each has one fixed reason text in the source.
pub data Rule : Type 0 where
  deadline_expired safe_mode_deny dependency_not_ready conflict_active hard_gates_passed : Rule
  score_below_threshold no_concurrency_slot cost_budget_unavailable score_and_budget_admit : Rule

pub record AdmissionDecision : Type 0 where
  pub candidate_id : String
  pub outcome : AdmissionOutcome
  pub score : ℤ
  pub rule_ids : List Rule
  pub budget : BudgetSnapshot
  pub next_evaluation_at : Option ℕ
