-- ===== src/Scheduling/Policy.antt =====
-- scheduling/policy.py: the deterministic policy. Scores are signed; `//` on the waiting time and
-- the share of the deadline horizon round down.
pub mod Rank
pub mod Budget
pub mod Gates
pub mod Aging
mod Tests
use brain_inspired_agent.Prelude.{
  ℕ, ◌+◌, ◌-◌, ◌*◌, ◌/◌, min, String, Bool, true, false, not, ◌&&◌, ◌||◌, Option, none, some, List,
  [], ◌∷◌, ◌++◌, map, filter, has, leb, ltb, ◌==◌, str_eq, str_lt, if◌then◌else◌, Dict, lookup,
  insert, Result, ok, raise, ◌>>=◌, ◌>>◌, reject_if,
}
use brain_inspired_agent.Prelude.Int.{ℤ, pos, sub_ℕ, ltb_ℤ}
use brain_inspired_agent.Prelude.Sort.{sorted}
use brain_inspired_agent.Scheduling.Models.{
  CandidateKind, stimulus, run, WorkClass, realtime, recovery, background, diagnostic, SystemMode,
  normal, review, degraded, safe, AdmissionOutcome, admit, defer, reject, SchedulingCandidate,
  BudgetSnapshot, Rule, deadline_expired, safe_mode_deny, dependency_not_ready, conflict_active,
  hard_gates_passed, score_below_threshold, no_concurrency_slot, cost_budget_unavailable,
  score_and_budget_admit, AdmissionDecision,
}

pub record PolicyConfig : Type 0 where
  pub version : String
  pub admission_threshold : ℕ
  pub deadline_horizon : ℕ
  pub deadline_bonus : ℕ
  pub recovery_bonus : ℕ
  pub realtime_bonus : ℕ
  pub review_background_bonus : ℕ
  pub aging_interval : ℕ
  pub aging_step : ℕ
  pub maximum_aging_bonus : ℕ
  pub reevaluation : ℕ

pub data PolicyError : Type 0 where
  version_mismatch duplicate_candidate : PolicyError
  key_error : String → PolicyError

-- The bonus for the whole intervals waited, up to the maximum.
pub aging_bonus : PolicyConfig → SchedulingCandidate → ℕ → ℕ
aging_bonus p c now =
    min ((now - c.enqueued_at) / p.aging_interval * p.aging_step) p.maximum_aging_bonus

-- The share of the deadline bonus that has come due: nothing a horizon or more ahead, all at the
-- deadline.
deadline_urgency : PolicyConfig → Option ℕ → ℕ → ℕ
deadline_urgency p none now = 0
deadline_urgency p (some at) now =
    p.deadline_bonus * (p.deadline_horizon - (at - now)) / p.deadline_horizon

class_bonus : PolicyConfig → WorkClass → SystemMode → ℕ
class_bonus p recovery mode = p.recovery_bonus
class_bonus p realtime mode = p.realtime_bonus
class_bonus p background review = p.review_background_bonus
class_bonus p _ _ = 0

-- `_score`.
pub score : PolicyConfig → BudgetSnapshot → ℕ → SchedulingCandidate → ℤ
score p b now c =
    sub_ℕ
      (c.base_priority
        + c.salience
        + c.goal_urgency
        + deadline_urgency p c.deadline now
        + class_bonus p c.work_class b.mode
        + aging_bonus p c now)
      (c.estimated_cost + c.conflict_penalty + c.dependency_penalty)

-- The sort key: the score from high to low, then the age, then the identifier.
pub goes_first :
    PolicyConfig → BudgetSnapshot → ℕ → SchedulingCandidate → SchedulingCandidate → Bool
goes_first p b now x y =
    ltb_ℤ (score p b now y) (score p b now x)
    || (not (ltb_ℤ (score p b now x) (score p b now y))
        && (ltb x.enqueued_at y.enqueued_at
            || (x.enqueued_at == y.enqueued_at && str_lt x.candidate_id y.candidate_id)))

abbrev is_expired : Option ℕ → ℕ → Bool
is_expired none now = false
is_expired (some at) now = leb at now

abbrev is_safe : SystemMode → Bool
is_safe safe = true
is_safe _ = false

-- `_hard_decision`.
pub hard_decision : SchedulingCandidate → BudgetSnapshot → ℕ → Option AdmissionOutcome × List Rule
hard_decision c b now =
    if is_expired c.deadline now
    then (some reject, deadline_expired ∷ [])
    else if is_safe b.mode && not c.safe_allowed
    then (some reject, safe_mode_deny ∷ [])
    else if not c.dependency_ready
    then (some defer, dependency_not_ready ∷ [])
    else if not c.conflict_free
    then (some defer, conflict_active ∷ [])
    else (none, hard_gates_passed ∷ [])

-- What is left of the global budget while the loop runs.
pub record Remaining : Type 0 where
  pub slots : ℕ
  pub cost : ℕ

-- The soft decision, for a candidate that has passed the hard gates.
pub soft_decision : PolicyConfig → ℤ → ℕ → Remaining → AdmissionOutcome × Rule × Remaining
soft_decision p s cost left =
    if ltb_ℤ s (pos p.admission_threshold)
    then (defer, score_below_threshold, left)
    else if left.slots == 0
    then (defer, no_concurrency_slot, left)
    else if ltb left.cost cost
    then (defer, cost_budget_unavailable, left)
    else (admit, score_and_budget_admit, record { slots = left.slots - 1; cost = left.cost - cost })

combine :
    PolicyConfig
    → ℤ
    → ℕ
    → Remaining
    → Option AdmissionOutcome × List Rule
    → AdmissionOutcome × List Rule × Remaining
combine p s cost left (some o, rules) = (o, rules, left)
combine p s cost left (none, rules) =
    let (o, rule, left') = soft_decision p s cost left in (o, rules ++ rule ∷ [], left')

-- One round's outcome, its rules and what is left.
pub judge :
    PolicyConfig
    → BudgetSnapshot
    → ℕ
    → SchedulingCandidate
    → Remaining
    → AdmissionOutcome × List Rule × Remaining
unfolding combine soft_decision hard_decision
judge p b now c left = combine p (score p b now c) c.estimated_cost left (hard_decision c b now)

next_evaluation : PolicyConfig → ℕ → AdmissionOutcome → Option ℕ
next_evaluation p now defer = some (now + p.reevaluation)
next_evaluation p now _ = none

pub decision :
    PolicyConfig → BudgetSnapshot → ℕ → SchedulingCandidate → Remaining → AdmissionDecision
unfolding judge next_evaluation
decision p b now c left =
    let (o, rules, left') = judge p b now c left in
    record {
      candidate_id = c.candidate_id;
      outcome = o;
      score = score p b now c;
      rule_ids = rules;
      budget = record b { available_slots = left'.slots; remaining_cost = left'.cost };
      next_evaluation_at = next_evaluation p now o;
    }

-- The loop over the ranked candidates, with the decisions so far.
pub decide_all :
    PolicyConfig
    → BudgetSnapshot
    → ℕ
    → List SchedulingCandidate
    → Remaining
    → Dict AdmissionDecision
    → Dict AdmissionDecision
decide_all p b now [] left done = done
decide_all p b now (c ∷ cs) left done =
    decide_all p b now cs (judge p b now c left).2
      (insert c.candidate_id (decision p b now c left) done)

-- `decisions[candidate.candidate_id]` for each candidate in the order given.
pub collect :
    Dict AdmissionDecision → List SchedulingCandidate → Result PolicyError (List AdmissionDecision)
collect done [] = ok []
collect done (c ∷ cs) = elim (lookup c.candidate_id done) [
  | none ↦ raise (key_error c.candidate_id)
  | some d ↦ do rest ← collect done cs; ok (d ∷ rest)
]

pub ids : List SchedulingCandidate → List String
ids [] = []
ids (c ∷ cs) = c.candidate_id ∷ ids cs

abbrev pub distinct : List String → Bool
distinct [] = true
distinct (x ∷ xs) = not (has x xs) && distinct xs

abbrev pub start : BudgetSnapshot → Remaining
start b = record { slots = b.available_slots; cost = b.remaining_cost }

pub decisions :
    PolicyConfig → BudgetSnapshot → ℕ → List SchedulingCandidate → Dict AdmissionDecision
decisions p b now cs = decide_all p b now (sorted (goes_first p b now) cs) (start b) []

pub evaluate :
    PolicyConfig
    → ℕ
    → List SchedulingCandidate
    → BudgetSnapshot
    → Result PolicyError (List AdmissionDecision)
evaluate p now cs b = do
  reject_if (not (str_eq b.policy_version p.version)) version_mismatch
  reject_if (not (distinct (ids cs))) duplicate_candidate
  collect (decisions p b now cs) cs

abbrev is_stimulus : CandidateKind → Bool
is_stimulus stimulus = true
is_stimulus run = false

pub rank_stimuli :
    PolicyConfig
    → ℕ
    → List SchedulingCandidate
    → BudgetSnapshot
    → Result PolicyError (List AdmissionDecision)
rank_stimuli p now cs b = evaluate p now (filter (λ c. is_stimulus c.kind) cs) b

pub rank_runs :
    PolicyConfig
    → ℕ
    → List SchedulingCandidate
    → BudgetSnapshot
    → Result PolicyError (List AdmissionDecision)
rank_runs p now cs b = evaluate p now (filter (λ c. not (is_stimulus c.kind)) cs) b
