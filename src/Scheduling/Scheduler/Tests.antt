-- ===== src/Scheduling/Scheduler/Tests.antt =====
-- One schedule, ticked twice within its window.
use brain_inspired_agent.Prelude.{Bool, true, Option, some, [], ◌∷◌}
use brain_inspired_agent.Scheduling.Scheduler.{
  skip, ScheduleSpec, Occurrence, ScheduledEvent, SchedulerState, SchedulerResult, tick,
}
use brain_inspired_agent.Scheduling.Scheduler.Once.{IsOnce, fresh, ticked, Reach-IsOnce}

abbrev accepts : ScheduledEvent → Bool
accepts e = true

abbrev opening : ScheduleSpec
opening = record {
  schedule_id = "open";
  window = 60;
  cooldown = 0;
  missed_policy = skip;
  max_missed = 300;
  trading_days_only = true;
  priority = 50;
}

abbrev today : ScheduleSpec → Option Occurrence
today s =
    some (record { occurrence_key = "today"; scheduled_at = 100; age = 20; trading_day = true })

abbrev none_yet : SchedulerResult
none_yet = record { evaluated = 0; triggered = 0; skipped = 0; expired = 0; deferred = 0 }

abbrev twice : SchedulerState
twice =
    (tick accepts today 125 (opening ∷ []) none_yet
      (tick accepts today 120 (opening ∷ []) none_yet
        (record { checkpoints = []; events = [] })).1).1

Reach-IsOnce_example : IsOnce twice
Reach-IsOnce_example =
    Reach-IsOnce accepts
      (ticked today 125 (opening ∷ []) none_yet (ticked today 120 (opening ∷ []) none_yet fresh))
