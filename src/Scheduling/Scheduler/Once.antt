-- ===== src/Scheduling/Scheduler/Once.antt =====
-- How often an occurrence of a schedule fires.
use brain_inspired_agent.Prelude.{
  ℕ, ◌+◌, ◌≤◌, String, ◌≡◌, Bool, true, false, not, ◌&&◌, ◌||◌, Option, none, some, List, [], ◌∷◌,
  ◌++◌, any, leb, str_eq, eq_iff, arith, subst, Bool-cases, inl, inr, if◌then◌else◌, if_elim,
  Result, ok, raise,
}
use brain_inspired_agent.Scheduling.Scheduler.{
  ScheduleSpec, Occurrence, Checkpoint, CheckpointStatus, fired, skipped, expired, fired_outcome,
  ScheduledEvent, SchedulerState, SchedulerError, SchedulerResult, Outcome, MissedTriggerPolicy,
  skip, fire_once, same_checkpoint, recorded, event_of, cooling, fire, checkpoint, handle_missed,
  handle, tally, tick,
}

-- How many events the outbox has been given for the occurrence.
abbrev pub times_fired : String → String → List ScheduledEvent → ℕ
times_fired id key [] = 0
times_fired id key (e ∷ es) =
    (if str_eq e.schedule_id id && str_eq e.occurrence_key key then 1 else 0)
    + times_fired id key es

-- An occurrence without a checkpoint has no event, and one with a checkpoint has at most one.
abbrev pub IsOnce : SchedulerState → Type 0
IsOnce s = (id key : String) → times_fired id key s.events ≤ (if recorded id key s then 1 else 0)

times_fired-append :
    (id key : String) (es : List ScheduledEvent) (e : ScheduledEvent)
    → times_fired id key (es ++ e ∷ [])
      ≡ times_fired id key es
        + (if str_eq e.schedule_id id && str_eq e.occurrence_key key then 1 else 0)
times_fired-append id key [] e = omega arith
times_fired-append id key (x ∷ es) e = omega (arith, times_fired-append id key es e)

any-append :
    (id key : String) (cs : List Checkpoint) (c : Checkpoint)
    → any (same_checkpoint id key) (cs ++ c ∷ [])
      ≡ (any (same_checkpoint id key) cs || same_checkpoint id key c)
any-append id key [] c = ground arith
any-append id key (x ∷ cs) c = ground (arith, any-append id key cs c)

abbrev row : ScheduleSpec → Occurrence → ℕ → Checkpoint
row spec o now = record {
  schedule_id = spec.schedule_id;
  occurrence_key = o.occurrence_key;
  status = fired;
  fired_at = some now;
}

fired_once :
    (spec : ScheduleSpec) (o : Occurrence) (now : ℕ) (missed : Bool) (s : SchedulerState)
    → IsOnce s
    → recorded spec.schedule_id o.occurrence_key s ≡ false
    → (id key : String)
    → times_fired id key (s.events ++ event_of spec o now missed ∷ []) ≤ (
        if any (same_checkpoint id key) (
          s.checkpoints
          ++ record {
            schedule_id = spec.schedule_id;
            occurrence_key = o.occurrence_key;
            status = fired;
            fired_at = some now;
          }
            ∷ [])
        then 1
        else 0)
fired_once spec o now missed s h new id key =
    elim (Bool-cases (str_eq spec.schedule_id id && str_eq o.occurrence_key key)) [
      | inl same ↦
          let a : spec.schedule_id ≡ id = (eq_iff spec.schedule_id id).0 (ground (arith, same)) in
          let b : o.occurrence_key ≡ key = (eq_iff o.occurrence_key key).0 (ground (arith, same)) in
          let open' : recorded id key s ≡ false =
            subst (λ x. recorded id x s ≡ false) b
              (subst (λ x. recorded x o.occurrence_key s ≡ false) a new) in
          ground (
            arith,
            h id key,
            open',
            same,
            times_fired-append id key s.events (event_of spec o now missed),
            any-append id key s.checkpoints (row spec o now),
          )
      | inr other ↦ ground (
        arith,
        h id key,
        other,
        times_fired-append id key s.events (event_of spec o now missed),
        any-append id key s.checkpoints (row spec o now),
      )
    ]

abbrev After : {A : Type 0} → A × SchedulerState → Type 0
After r = IsOnce r.1

module _ (accepts : ScheduledEvent → Bool) where
  fire-IsOnce :
      (spec : ScheduleSpec) (o : Occurrence) (now : ℕ) (missed : Bool) (s : SchedulerState)
      → IsOnce s
      → IsOnce (fire accepts spec o now missed s).1
  unfolding fire
  fire-IsOnce spec o now missed s h =
      if_elim After (recorded spec.schedule_id o.occurrence_key s) _ _ (λ _. h)
        (λ new.
          if_elim After (cooling spec now s.checkpoints) _ _ (λ _. h)
            (λ _.
              if_elim After (not (accepts (event_of spec o now missed))) _ _ (λ _. h)
                (λ _ id key. fired_once spec o now missed s h new id key)))

  checkpoint-IsOnce :
      (id key : String) (status : CheckpointStatus) (s : SchedulerState)
      → IsOnce s
      → IsOnce (checkpoint id key status s).1
  unfolding checkpoint
  checkpoint-IsOnce id key status s h =
      if_elim After (recorded id key s) _ _ (λ _. h)
        (λ _ j k. ground (
          arith,
          h j k,
          any-append j k s.checkpoints
              (record { schedule_id = id; occurrence_key = key; status = status; fired_at = none }),
        ))

  fired_outcome-IsOnce :
      (r : Result SchedulerError Bool × SchedulerState) → IsOnce r.1 → IsOnce (fired_outcome r).1
  fired_outcome-IsOnce (raise e, s) h = h
  fired_outcome-IsOnce (ok b, s) h = h

  handle_missed-IsOnce :
      (spec : ScheduleSpec) (o : Occurrence) (now : ℕ) (p : MissedTriggerPolicy)
      (s : SchedulerState)
      → IsOnce s
      → IsOnce (handle_missed accepts spec o now p s).1
  unfolding handle_missed
  handle_missed-IsOnce spec o now fire_once s h =
      fired_outcome-IsOnce (fire accepts spec o now true s) (fire-IsOnce spec o now true s h)
  handle_missed-IsOnce spec o now skip s h =
      checkpoint-IsOnce spec.schedule_id o.occurrence_key skipped s h

  handle-IsOnce :
      (spec : ScheduleSpec) (now : ℕ) (o : Option Occurrence) (s : SchedulerState)
      → IsOnce s
      → IsOnce (handle accepts spec now o s).1
  unfolding handle
  handle-IsOnce spec now none s h = h
  handle-IsOnce spec now (some o) s h =
      if_elim After (spec.trading_days_only && not o.trading_day) _ _
        (λ _. checkpoint-IsOnce spec.schedule_id o.occurrence_key skipped s h)
        (λ _.
          if_elim After (leb o.age spec.window) _ _
            (λ _.
              fired_outcome-IsOnce (fire accepts spec o now false s)
                (fire-IsOnce spec o now false s h))
            (λ _.
              if_elim After (leb o.age (spec.window + spec.max_missed)) _ _
                (λ _. handle_missed-IsOnce spec o now spec.missed_policy s h)
                (λ _. checkpoint-IsOnce spec.schedule_id o.occurrence_key expired s h)))

  pub tick-IsOnce :
      (occurrence : ScheduleSpec → Option Occurrence) (now : ℕ) (specs : List ScheduleSpec)
      (n : SchedulerResult) (s : SchedulerState)
      → IsOnce s
      → IsOnce (tick accepts occurrence now specs n s).1
  unfolding tick
  tick-IsOnce occurrence now [] n s h = h
  tick-IsOnce occurrence now (spec ∷ specs) n s h =
      let (out, s') = handle accepts spec now (occurrence spec) s in
      next out s' (handle-IsOnce spec now (occurrence spec) s h)
        (λ m t k. tick-IsOnce occurrence now specs m t k)
    where
      next :
          (out : Result SchedulerError Outcome) (t : SchedulerState)
          → IsOnce t
          → ((m : SchedulerResult) (u : SchedulerState)
              → IsOnce u
              → IsOnce (tick accepts occurrence now specs m u).1)
          → IsOnce
              (elim out as (λ _. Result SchedulerError SchedulerResult × SchedulerState) [
                | raise e ↦ (raise e, t)
                | ok o ↦ tick accepts occurrence now specs (tally o n) t
              ]).1
      next (raise e) t k ih = k
      next (ok o) t k ih = ih (tally o n) t k

  -- The states that ticks bring about, at any instants, with any schedules and clock readings.
  pub data Reach : SchedulerState → Type 0 where
    fresh : Reach (record { checkpoints = []; events = [] })
    ticked :
        {s : SchedulerState} (occurrence : ScheduleSpec → Option Occurrence) (now : ℕ)
        (specs : List ScheduleSpec) (n : SchedulerResult)
        → Reach s
        → Reach (tick accepts occurrence now specs n s).1

  -- In every state that ticks bring about, whatever the schedules, the instants and the events that the
  -- outbox refuses: an occurrence of a schedule without a checkpoint has given the outbox no event, and one
  -- with a checkpoint at most one.
  pub Reach-IsOnce : {s : SchedulerState} → Reach s → IsOnce s
  Reach-IsOnce fresh = λ id key. omega arith
  Reach-IsOnce (ticked {s = s} occurrence now specs n r) =
      tick-IsOnce occurrence now specs n s (Reach-IsOnce r)
