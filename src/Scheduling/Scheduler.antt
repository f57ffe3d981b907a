-- ===== src/Scheduling/Scheduler.antt =====
-- scheduler.py: the schedule windows. An occurrence of a schedule is what the local date and the
-- schedule's time of day give at an instant: its key, its age and whether its day is a trading day; `none`
-- before its time. The time zone and the calendar determine it, so it comes with the tick. Rows are those of
-- `schedule_checkpoint`, with its primary key (storage/migrations.py), the schedule and the
-- occurrence; the outbox holds the events, each by its identifier and deduplication key. Durations are
-- whole microseconds.
pub mod Once
mod Tests
use brain_inspired_agent.Prelude.{
  ℕ, ◌+◌, String, Bool, true, false, not, ◌&&◌, Option, none, some, List, [], ◌∷◌, ◌++◌, any, ltb,
  leb, str_eq, if◌then◌else◌, Result, ok, raise,
}
use brain_inspired_agent.Prelude.Instants.{text_before}

pub data MissedTriggerPolicy : Type 0 where
  skip fire_once : MissedTriggerPolicy

pub record ScheduleSpec : Type 0 where
  pub schedule_id : String
  pub window : ℕ
  pub cooldown : ℕ
  pub missed_policy : MissedTriggerPolicy
  pub max_missed : ℕ
  pub trading_days_only : Bool
  pub priority : ℕ

pub record Occurrence : Type 0 where
  pub occurrence_key : String
  pub scheduled_at : ℕ
  pub age : ℕ
  pub trading_day : Bool

pub data CheckpointStatus : Type 0 where
  fired skipped expired : CheckpointStatus

pub record Checkpoint : Type 0 where
  pub schedule_id : String
  pub occurrence_key : String
  pub status : CheckpointStatus
  pub fired_at : Option ℕ

-- The event `schedule.triggered`; its deduplication key is made of the two keys.
pub record ScheduledEvent : Type 0 where
  pub schedule_id : String
  pub occurrence_key : String
  pub scheduled_at : ℕ
  pub triggered_at : ℕ
  pub missed : Bool
  pub priority : ℕ
  pub expires_at : ℕ

pub record SchedulerState : Type 0 where
  pub checkpoints : List Checkpoint
  pub events : List ScheduledEvent

-- The outbox refuses the event, so the tick raises.
pub data SchedulerError : Type 0 where
  event_refused : SchedulerError

pub data Outcome : Type 0 where
  triggered was_skipped was_expired deferred unchanged : Outcome

abbrev pub same_checkpoint : String → String → Checkpoint → Bool
same_checkpoint id key c = str_eq c.schedule_id id && str_eq c.occurrence_key key

abbrev is_fired : CheckpointStatus → Bool
is_fired fired = true
is_fired _ = false

abbrev later_of : Option ℕ → Option ℕ → Option ℕ
later_of none b = b
later_of (some a) none = some a
later_of (some a) (some b) = if text_before a b then some b else some a

-- The last instant at which the schedule has fired, in the order of the instants' texts.
pub last_fired : String → List Checkpoint → Option ℕ
last_fired id [] = none
last_fired id (c ∷ cs) =
    let rest = last_fired id cs in
    if str_eq c.schedule_id id && is_fired c.status then later_of c.fired_at rest else rest

abbrev since : ℕ → ℕ → Option ℕ → Bool
since now cooldown none = false
since now cooldown (some t) = ltb now (t + cooldown)

-- The cooldown's test in `_fire`.
pub cooling : ScheduleSpec → ℕ → List Checkpoint → Bool
unfolding last_fired
cooling spec now cs =
    ltb 0 spec.cooldown && since now spec.cooldown (last_fired spec.schedule_id cs)

abbrev pub event_of : ScheduleSpec → Occurrence → ℕ → Bool → ScheduledEvent
event_of spec o now missed = record {
  schedule_id = spec.schedule_id;
  occurrence_key = o.occurrence_key;
  scheduled_at = o.scheduled_at;
  triggered_at = now;
  missed = missed;
  priority = spec.priority;
  expires_at = if missed then now + spec.max_missed else o.scheduled_at + spec.window;
}

abbrev pub recorded : String → String → SchedulerState → Bool
recorded id key s = any (same_checkpoint id key) s.checkpoints

-- `_fire`, given what the outbox's writer accepts.
pub fire :
    (ScheduledEvent → Bool)
    → ScheduleSpec
    → Occurrence
    → ℕ
    → Bool
    → SchedulerState
    → Result SchedulerError Bool × SchedulerState
unfolding cooling
fire accepts spec o now missed s =
    if recorded spec.schedule_id o.occurrence_key s
    then (ok false, s)
    else if cooling spec now s.checkpoints
    then (ok false, s)
    else if not (accepts (event_of spec o now missed))
    then (raise event_refused, s)
    else (
      ok true,
      record {
        checkpoints =
            s.checkpoints
            ++ record {
              schedule_id = spec.schedule_id;
              occurrence_key = o.occurrence_key;
              status = fired;
              fired_at = some now;
            }
              ∷ [];
        events = s.events ++ event_of spec o now missed ∷ [];
      },
    )

-- `_checkpoint`: `INSERT OR IGNORE`, and whether a row was inserted.
pub checkpoint : String → String → CheckpointStatus → SchedulerState → Bool × SchedulerState
checkpoint id key status s = if recorded id key s then (false, s) else (
  true,
  record s {
    checkpoints =
        s.checkpoints
        ++ record { schedule_id = id; occurrence_key = key; status = status; fired_at = none } ∷ [];
  },
)

abbrev pub fired_outcome :
    Result SchedulerError Bool × SchedulerState → Result SchedulerError Outcome × SchedulerState
fired_outcome (raise e, s) = (raise e, s)
fired_outcome (ok done, s) = (ok (if done then triggered else deferred), s)

abbrev pub noted_outcome :
    Outcome → Bool × SchedulerState → Result SchedulerError Outcome × SchedulerState
noted_outcome o (done, s) = (ok (if done then o else unchanged), s)

-- An occurrence past its window, within the time for missed ones.
pub handle_missed :
    (ScheduledEvent → Bool)
    → ScheduleSpec
    → Occurrence
    → ℕ
    → MissedTriggerPolicy
    → SchedulerState
    → Result SchedulerError Outcome × SchedulerState
unfolding fire checkpoint
handle_missed accepts spec o now fire_once s = fired_outcome (fire accepts spec o now true s)
handle_missed accepts spec o now skip s =
    noted_outcome was_skipped (checkpoint spec.schedule_id o.occurrence_key skipped s)

-- One round of `tick`.
pub handle :
    (ScheduledEvent → Bool)
    → ScheduleSpec
    → ℕ
    → Option Occurrence
    → SchedulerState
    → Result SchedulerError Outcome × SchedulerState
unfolding handle_missed
handle accepts spec now none s = (ok deferred, s)
handle accepts spec now (some o) s =
    if spec.trading_days_only && not o.trading_day
    then noted_outcome was_skipped (checkpoint spec.schedule_id o.occurrence_key skipped s)
    else if leb o.age spec.window
    then fired_outcome (fire accepts spec o now false s)
    else if leb o.age (spec.window + spec.max_missed)
    then handle_missed accepts spec o now spec.missed_policy s
    else noted_outcome was_expired (checkpoint spec.schedule_id o.occurrence_key expired s)

pub record SchedulerResult : Type 0 where
  pub evaluated : ℕ
  pub triggered : ℕ
  pub skipped : ℕ
  pub expired : ℕ
  pub deferred : ℕ

pub tally : Outcome → SchedulerResult → SchedulerResult
tally triggered n = record n { evaluated = n.evaluated + 1; triggered = n.triggered + 1 }
tally was_skipped n = record n { evaluated = n.evaluated + 1; skipped = n.skipped + 1 }
tally was_expired n = record n { evaluated = n.evaluated + 1; expired = n.expired + 1 }
tally deferred n = record n { evaluated = n.evaluated + 1; deferred = n.deferred + 1 }
tally unchanged n = record n { evaluated = n.evaluated + 1 }

-- `tick`, with the counts so far.
pub tick :
    (ScheduledEvent → Bool)
    → (ScheduleSpec → Option Occurrence)
    → ℕ
    → List ScheduleSpec
    → SchedulerResult
    → SchedulerState
    → Result SchedulerError SchedulerResult × SchedulerState
unfolding handle tally
tick accepts occurrence now [] n s = (ok n, s)
tick accepts occurrence now (spec ∷ specs) n s =
    let (out, s') = handle accepts spec now (occurrence spec) s in
    elim out [ raise e ↦ (raise e, s') | ok o ↦ tick accepts occurrence now specs (tally o n) s' ]
