-- ===== src/Cognition/Coordinator/Tests.antt =====
-- One stimulus and one goal.
use brain_inspired_agent.Prelude.{
  ℕ, ◌<◌, ◌≡◌, refl, true, false, none, some, [], ◌∷◌, ◌++◌, map, take, length, lookup, arith, ◌≢◌,
}
use brain_inspired_agent.Cognition.Goals.{GoalSnapshot, available}
use brain_inspired_agent.Cognition.Coordinator.{
  Stimulus, accepted, duplicate, PendingStimulus, CognitiveCycle, created, CoordinatorConfig,
  Coordinator, new, accept, submission, submit, occupied, find_evaluation, available_goals,
  CycleRequest, goals_of, form_cycle,
}
use brain_inspired_agent.Cognition.Coordinator.Bounds.{
  IsBounded, Reach, fresh, submitted, Reach-IsBounded,
}
use brain_inspired_agent.Cognition.Coordinator.Once.{Later, here, submit_once, form_cycle_lem}

abbrev config : CoordinatorConfig
config = record { merge_window = 250; max_pending = 2; max_batch = 1; max_active = 1 }

abbrev command : Stimulus
command = record {
  msg_id = "m-1";
  msg_type = "command.received";
  dedup_key = "d-1";
  correlation_id = "k";
  priority = 50;
  occurred_at = 3;
}

abbrev snapshot : GoalSnapshot
snapshot = record {
  version = 1;
  created_at = 2;
  evaluations =
      record {
        goal = record {
          goal_id = "g-1";
          priority = 5;
          conflict_domain = "desk";
          deadline = none;
          completion_conditions = [];
          enabled = true;
        };
        status = available;
        evaluated_at = 2;
        unmet_condition_ids = [];
      }
      ∷ [];
  selected_goal_ids = "g-1" ∷ [];
}

abbrev request : CycleRequest ℕ ℕ
request = record {
  world_snapshot = 0;
  goal_snapshot = snapshot;
  memory_snapshot = 0;
  force = false;
  monotonic = 300;
  now = 4;
  new_id = "c-1";
}

abbrev begun : Coordinator ℕ ℕ
begun = new

abbrev after_submit : Coordinator ℕ ℕ
after_submit = (submit config command 10 begun).1

Reach-IsBounded_example : IsBounded config (form_cycle config request after_submit).1
Reach-IsBounded_example = Reach-IsBounded config (Reach.formed request (submitted command 10 fresh))

was_accepted : (submit config command 10 begun).0 ≡ accepted
unfolding submit submission new
was_accepted = refl

submit_once_example :
    ((submit config command 400 (form_cycle config request after_submit).1).0 ≡ duplicate)
    × ((submit config command 400 (form_cycle config request after_submit).1).1.pending
        ≡ (form_cycle config request after_submit).1.pending)
submit_once_example =
    submit_once config command command 10 400 begun was_accepted refl refl
      (Later.formed request here)

abbrev waiting_command : PendingStimulus
waiting_command = record { event = command; accepted_at = 10 }

one_pending : after_submit.pending ≡ waiting_command ∷ []
unfolding submit submission accept new
one_pending = refl

slot_free : length after_submit.active < 1
unfolding submit submission accept new
slot_free = omega arith

goal_free : (goals_of config request after_submit).0 ≢ []
unfolding submit submission accept new available_goals find_evaluation occupied
goal_free e = absurd (ground (arith, e))

form_cycle_lem_example :
    (x : CognitiveCycle ℕ ℕ) × ((form_cycle config request after_submit).0 ≡ created x)
    × (x.stimuli ++ map (λ p. p.event) (form_cycle config request after_submit).1.pending
        ≡ map (λ p. p.event) after_submit.pending)
    × (x.stimuli ≡ take 1 (map (λ p. p.event) after_submit.pending))
    × (lookup "c-1" (form_cycle config request after_submit).1.active ≡ some x)
form_cycle_lem_example =
    form_cycle_lem config request after_submit waiting_command [] one_pending slot_free refl
      goal_free
