-- ===== src/Scheduling/Policy/Tests.antt =====
-- A budget for one of two candidates.
use brain_inspired_agent.Prelude.{◌≤◌, ◌≡◌, refl, true, false, some, List, [], ◌∷◌, map, arith, ok}
use brain_inspired_agent.Prelude.Int.{◌≤ℤ◌}
use brain_inspired_agent.Scheduling.Models.{
  SchedulingCandidate, BudgetSnapshot, AdmissionDecision, stimulus, realtime, background, normal,
}
use brain_inspired_agent.Scheduling.Policy.{
  PolicyConfig, evaluate, ids, distinct, score, aging_bonus,
}
use brain_inspired_agent.Scheduling.Policy.Rank.{evaluate_total}
use brain_inspired_agent.Scheduling.Policy.Budget.{
  admitted_cost, admitted_count, evaluate_within_budget,
}
use brain_inspired_agent.Scheduling.Policy.Gates.{AllSound, evaluate-AllSound}
use brain_inspired_agent.Scheduling.Policy.Aging.{score_mono}

abbrev config : PolicyConfig
config = record {
  version = "1.0";
  admission_threshold = 10;
  deadline_horizon = 300;
  deadline_bonus = 20;
  recovery_bonus = 25;
  realtime_bonus = 15;
  review_background_bonus = 5;
  aging_interval = 60;
  aging_step = 2;
  maximum_aging_bonus = 20;
  reevaluation = 30;
}

abbrev budget : BudgetSnapshot
budget = record { mode = normal; available_slots = 1; remaining_cost = 5; policy_version = "1.0" }

abbrev urgent : SchedulingCandidate
urgent = record {
  candidate_id = "a";
  kind = stimulus;
  work_class = realtime;
  enqueued_at = 900;
  base_priority = 30;
  salience = 0;
  goal_urgency = 0;
  deadline = some 1100;
  estimated_cost = 2;
  conflict_penalty = 0;
  dependency_penalty = 0;
  dependency_ready = true;
  conflict_free = true;
  safe_allowed = false;
}

abbrev late : SchedulingCandidate
late = record urgent { candidate_id = "b"; work_class = background; deadline = some 1000 }

abbrev candidates : List SchedulingCandidate
candidates = late ∷ urgent ∷ []

candidates-distinct : distinct (ids candidates) ≡ true
unfolding ids
candidates-distinct = refl

evaluate_total_example :
    (ds : List AdmissionDecision) × (evaluate config 1000 candidates budget ≡ ok ds)
    × (map (λ d. d.candidate_id) ds ≡ ids candidates)
evaluate_total_example = evaluate_total config budget 1000 candidates refl candidates-distinct

abbrev decided : List AdmissionDecision
decided = evaluate_total_example.0

evaluate_within_budget_example :
    (admitted_cost candidates decided ≤ 5) × (admitted_count candidates decided ≤ 1)
evaluate_within_budget_example =
    evaluate_within_budget config budget 1000 candidates decided evaluate_total_example.1

evaluate-AllSound_example : AllSound config budget 1000 candidates decided
evaluate-AllSound_example =
    evaluate-AllSound config budget 1000 candidates decided evaluate_total_example.1

score_mono_example :
    (score config budget 1000 urgent ≤ℤ score config budget 1030 urgent)
    × (aging_bonus config urgent 1030 ≤ 20)
score_mono_example = score_mono config budget urgent 1000 1030 (omega arith)
