-- ===== src/Cognition/Goals/Tests.antt =====
-- Two goals of one domain, and one of another.
use brain_inspired_agent.Prelude.{◌≡◌, true, none, List, [], ◌∷◌, All}
use brain_inspired_agent.Cognition.Goals.{
  GoalDefinition, GoalEvaluation, available, disabled, is_available, select,
}
use brain_inspired_agent.Cognition.Goals.Select.{serves, Apart, select_lem}

abbrev research : GoalDefinition
research = record {
  goal_id = "g-1";
  priority = 5;
  conflict_domain = "desk";
  deadline = none;
  completion_conditions = [];
  enabled = true;
}

abbrev evaluated : GoalDefinition → GoalEvaluation
evaluated g = record { goal = g; status = available; evaluated_at = 10; unmet_condition_ids = [] }

abbrev evaluations : List GoalEvaluation
evaluations =
    evaluated research
    ∷ evaluated (record research { goal_id = "g-2"; priority = 8 })
    ∷ record (evaluated (record research { goal_id = "g-3"; conflict_domain = "lab" })) {
      status = disabled;
    }
    ∷ []

select_lem_example :
    All (λ e. is_available e.status ≡ true) (select evaluations)
    × Apart [] (select evaluations)
    × All (λ e. is_available e.status ≡ true → serves (select evaluations) e ≡ true) evaluations
select_lem_example = select_lem evaluations
