-- ===== src/Events/Inbox.antt =====
-- events/inbox.py: the transactional inbox consumer. The table is the slice of `inbox_message`
-- that belongs to one consumer, in row order, with its two unique keys (storage/migrations.py):
-- the message id, and the deduplication key where it is not null. A transaction is a function
-- that returns the new database, so a handler that raises leaves the old one. The serializer,
-- the classifier of errors and the uuid source are the constructor's arguments. `consume` awaits between its
-- transactions; here a call runs alone on the consumer's rows, so no other delivery comes between its
-- attempts.
pub mod Table
pub mod Verdict
pub mod Steps
pub mod Once
pub mod Redelivery
mod Tests
use brain_inspired_agent.Prelude.{
  ℕ, zero, suc, ◌+◌, ◌-◌, String, len, Bool, true, false, not, ◌||◌, Option, none, some, List, [],
  ◌∷◌, ◌++◌, map, ltb, leb, str_eq, if◌then◌else◌, any, find?, Result, ok, raise,
}
use brain_inspired_agent.Events.Retry.{RetryPolicy, PolicyError, delay_after}

pub record Message : Type 0 where
  pub msg_id : String
  pub correlation_id : String
  pub dedup_key : Option String

pub data Status : Type 0 where
  retry_pending done dead_letter : Status

pub record Row : Type 0 where
  pub msg_id : String
  pub dedup_key : Option String
  pub status : Status
  pub attempt : ℕ
  pub received_at : ℕ
  pub processed_at : Option ℕ
  pub error_id : Option String
  pub correlation_id : String

pub record DeadLetter : Type 0 where
  pub dead_letter_id : String
  pub msg_id : String
  pub envelope : String
  pub error_id : String
  pub failed_at : ℕ
  pub correlation_id : String

pub data ConsumptionOutcome : Type 0 where
  processed duplicate dead_lettered : ConsumptionOutcome

pub record ConsumptionResult : Type 0 where
  pub outcome : ConsumptionOutcome
  pub attempts : ℕ
  pub error_id : Option String

-- What `consume` may raise itself: the size check, a violation of a unique or primary key inside the
-- `except` block, and the retry policy's own check.
pub data InboxError : Type 0 where
  message_too_large integrity_error : InboxError
  policy_error : PolicyError → InboxError

-- The consumer object, and what it is given.
pub record Consumer (E : Type 0) : Type 0 where
  pub retry_policy : RetryPolicy
  pub is_retryable : E → Bool
  pub serialize : Message → String
  pub new_id : ℕ → String

-- The database with the domain's own tables, the clock, and how many ids have been issued.
pub record State (D : Type 0) : Type 0 where
  pub rows : List Row
  pub dead_letters : List DeadLetter
  pub domain : D
  pub now : ℕ
  pub issued : ℕ

abbrev pub same_key : Option String → Option String → Bool
same_key (some a) (some b) = str_eq a b
same_key _ _ = false

-- The `WHERE` clause of both queries: the message's id, or its deduplication key if not null.
abbrev pub matches : Message → Row → Bool
matches m r = str_eq r.msg_id m.msg_id || same_key r.dedup_key m.dedup_key

unfoldable pub select : Message → List Row → Option Row
select m rows = find? (matches m) rows

abbrev pub is_terminal : Status → Bool
is_terminal retry_pending = false
is_terminal done = true
is_terminal dead_letter = true

-- An update of the rows with this message id.
unfoldable pub update_rows : String → (Row → Row) → List Row → List Row
update_rows id f [] = []
update_rows id f (r ∷ rows) = (if str_eq r.msg_id id then f r else r) ∷ update_rows id f rows

-- `INSERT … ON CONFLICT(consumer_id, msg_id) DO UPDATE`. The other unique key is no conflict
-- target, so a row of another message with the same key is a violation.
unfoldable pub upsert : Row → (Row → Row) → List Row → Option (List Row)
upsert new change rows =
    if any (λ r. str_eq r.msg_id new.msg_id) rows
    then some (update_rows new.msg_id change rows)
    else if any (λ r. same_key r.dedup_key new.dedup_key) rows
    then none
    else some (rows ++ new ∷ [])

-- `_state`.
unfoldable pub state_of : Option Row → Option Status × ℕ
state_of none = (none, 0)
state_of (some r) = (some r.status, r.attempt)

abbrev pub is_closed : Option Row → Bool
is_closed none = false
is_closed (some r) = is_terminal r.status

abbrev pub complete : ℕ → ℕ → Row → Row
complete attempt now r = record r {
  status = done;
  attempt = attempt;
  processed_at = some now;
  error_id = none;
}

abbrev pub to_retry : ℕ → String → Row → Row
to_retry attempt error r = record r {
  status = retry_pending;
  attempt = attempt;
  error_id = some error;
}

abbrev pub to_dead : ℕ → ℕ → String → Row → Row
to_dead attempt at error r = record r {
  status = dead_letter;
  attempt = attempt;
  processed_at = some at;
  error_id = some error;
}

abbrev pub fresh_row : Message → ℕ → Row
fresh_row m now = record {
  msg_id = m.msg_id;
  dedup_key = m.dedup_key;
  status = retry_pending;
  attempt = 0;
  received_at = now;
  processed_at = none;
  error_id = none;
  correlation_id = m.correlation_id;
}

-- The rows after the `SELECT` and, if it found nothing, the `INSERT`.
pub ensured : Message → ℕ → Option Row → List Row → List Row
ensured m now none rows = rows ++ fresh_row m now ∷ []
ensured m now (some r) rows = rows

module _ {D E : Type 0} (c : Consumer E) (m : Message) (handler : ℕ → D → Result E D) where
  -- What is left of `_run_attempt` once the handler has returned or raised.
  pub finish_attempt : ℕ → State D → Result E D → Result E (Bool × State D)
  unfolding ensured update_rows
  finish_attempt attempt s (raise e) = raise e
  finish_attempt attempt s (ok d) = ok (
    false,
    record s {
      rows =
          update_rows m.msg_id (complete attempt s.now) (ensured m s.now (select m s.rows) s.rows);
      domain = d;
    },
  )

  pub run_attempt : ℕ → State D → Result E (Bool × State D)
  unfolding finish_attempt
  run_attempt attempt s =
      if is_closed (select m s.rows)
      then ok (true, s)
      else finish_attempt attempt s (handler attempt s.domain)

  pub record_retry : ℕ → String → State D → Option (State D)
  record_retry attempt error s =
      elim (upsert (to_retry attempt error (fresh_row m s.now)) (to_retry attempt error) s.rows) [
        | none ↦ none
        | some rows ↦ some (record s { rows = rows })
      ]

  -- The dead letter's row, unless its primary key is taken.
  pub insert_dead_letter : String → State D → Option (List DeadLetter)
  insert_dead_letter error s =
      if any (λ l. str_eq l.dead_letter_id (c.new_id s.issued)) s.dead_letters
      then none
      else some (
          s.dead_letters
          ++ record {
            dead_letter_id = c.new_id s.issued;
            msg_id = m.msg_id;
            envelope = c.serialize m;
            error_id = error;
            failed_at = s.now;
            correlation_id = m.correlation_id;
          }
            ∷ [])

  pub record_dead_letter : ℕ → String → State D → Option (State D)
  unfolding insert_dead_letter
  record_dead_letter attempt error s =
      elim (upsert (to_dead attempt s.now error (fresh_row m s.now)) (to_dead attempt s.now error)
        s.rows) [
          | none ↦ none
          | some rows ↦ elim (insert_dead_letter error s) [
            | none ↦ none
            | some letters ↦
                some (record s { rows = rows; dead_letters = letters; issued = s.issued + 1 })
          ]
        ]

  -- The end of `consume` that gives the message up.
  pub give_up : ℕ → String → State D → Result InboxError ConsumptionResult × State D
  unfolding record_dead_letter
  give_up attempt error s = elim (record_dead_letter attempt error s) [
    | none ↦ (raise integrity_error, s)
    | some s' ↦
        (ok (record { outcome = dead_lettered; attempts = attempt; error_id = some error }), s')
  ]

  -- `_record_retry`, then the sleep before the next attempt.
  pub schedule_retry : ℕ → String → State D → Result InboxError (State D) × State D
  unfolding record_retry
  schedule_retry attempt error s = elim (record_retry attempt error s) [
    | none ↦ (raise integrity_error, s)
    | some s' ↦ elim (delay_after c.retry_policy.backoff attempt) [
      | raise p ↦ (raise (policy_error p), s')
      | ok delay ↦ (ok (record s' { now = s'.now + delay }), s')
    ]
  ]

  -- The `for` loop with the rounds left, and what follows it.
  pub attempt_loop : ℕ → ℕ → ℕ → State D → Result InboxError ConsumptionResult × State D
  unfolding run_attempt give_up schedule_retry
  attempt_loop zero attempt previous s =
      give_up previous (c.new_id s.issued) (record s { issued = s.issued + 1 })
  attempt_loop (suc rounds) attempt previous s = elim (run_attempt attempt s) [
    | ok (true, s') ↦
        (ok (record { outcome = duplicate; attempts = previous; error_id = none }), s')
    | ok (false, s') ↦
        (ok (record { outcome = processed; attempts = attempt; error_id = none }), s')
    | raise e ↦
        let error = c.new_id s.issued in
        let t = record s { issued = s.issued + 1 } in
        let retry = schedule_retry attempt error t in
        let dead = give_up attempt error t in
        elim (not (c.is_retryable e) || leb c.retry_policy.max_attempts attempt) [
          | true ↦ dead
          | false ↦ elim retry.0 [
            | raise x ↦ (raise x, retry.1)
            | ok next ↦ attempt_loop rounds (suc attempt) previous next
          ]
        ]
  ]

  pub consume : State D → Result InboxError ConsumptionResult × State D
  consume s =
      if ltb 65536 (len (c.serialize m))
      then (raise message_too_large, s)
      else let previous = (state_of (select m s.rows)).1 in
        if is_closed (select m s.rows)
        then (ok (record { outcome = duplicate; attempts = previous; error_id = none }), s)
        else attempt_loop (c.retry_policy.max_attempts - previous) (previous + 1) previous s
