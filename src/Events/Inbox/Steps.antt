-- ===== src/Events/Inbox/Steps.antt =====
-- The parts of the attempt loop, for a message whose row, if any, is its own.
use brain_inspired_agent.Prelude.{
  ℕ, suc, ◌+◌, ◌≤◌, ◌<◌, any, str_eq, String, ◌≡◌, refl, ◌∙◌, false, Option, none, some, List, [],
  ◌∷◌, ◌++◌, arith, subst, Result, ok, raise, sym,
}
use brain_inspired_agent.Events.Retry.Laws.{IsFinite, delay_after-ok}
use brain_inspired_agent.Events.Inbox.{
  Message, Row, done, dead_letter, DeadLetter, Consumer, State, dead_lettered, select, is_terminal,
  is_closed, complete, to_retry, to_dead, fresh_row, ensured, update_rows, run_attempt, give_up,
  schedule_retry,
}
use brain_inspired_agent.Events.Inbox.Table.{
  IsOwn, KeepsKeys, stored, upsert_own, ensured_own, select-update_own,
}
use brain_inspired_agent.Events.Inbox.Verdict.{abandoned, HasRow, Settles}

-- The message can be attempted: its row, if any, is its own and not final.
pub record IsOpen (m : Message) (rows : List Row) : Type 0 where
  pub own : IsOwn m (select m rows)
  pub not_final : is_closed (select m rows) ≡ false

-- No identifier that is still to be issued is a dead letter's.
pub record IsFresh {D E : Type 0} (c : Consumer E) (s : State D) : Type 0 where
  pub unused :
      (n : ℕ)
      → s.issued ≤ n
      → any (λ l. str_eq l.dead_letter_id (c.new_id n)) s.dead_letters ≡ false

-- The stored row has the keys and the values of the change, whether it is new or not.
stored_id :
    (m : Message) (new : Row) (f : Row → Row) (o : Option Row)
    → KeepsKeys f
    → new.msg_id ≡ m.msg_id
    → IsOwn m o
    → (stored new f o).msg_id ≡ m.msg_id
stored_id m new f none k e own = e
stored_id m new f (some r) k e own = (k r).0 ∙ own

-- A section's shared facts: the consumer, the message and its handler.
module _ {D E : Type 0} (c : Consumer E) (m : Message) (handler : ℕ → D → Result E D) where
  pub run_attempt-ok :
      (attempt : ℕ) (s : State D) (d : D)
      → IsOpen m s.rows
      → handler attempt s.domain ≡ ok d
      → (s' : State D) × (run_attempt c m handler attempt s ≡ ok (false, s'))
        × (s'.domain ≡ d)
        × (s'.dead_letters ≡ s.dead_letters)
        × HasRow m s'.rows done attempt
  unfolding run_attempt
  run_attempt-ok attempt s d o h =
      let (r, found, own) = ensured_own m s.now s.rows o.own in
      let rows' = ensured m s.now (select m s.rows) s.rows in
      (
        record s { rows = update_rows m.msg_id (complete attempt s.now) rows'; domain = d },
        rw (o.not_final, h) refl,
        refl,
        refl,
        record {
          row = complete attempt s.now r;
          found =
              select-update_own m (complete attempt s.now) rows' r (λ x. (refl, refl)) found own;
          own = own;
          has_status = refl;
          has_attempt = refl;
        },
      )

  pub run_attempt-raise :
      (attempt : ℕ) (s : State D) (e : E)
      → IsOpen m s.rows
      → handler attempt s.domain ≡ raise e
      → run_attempt c m handler attempt s ≡ raise e
  unfolding run_attempt
  run_attempt-raise attempt s e o h = rw (o.not_final, h) refl

  abbrev letter_for : String → State D → DeadLetter
  letter_for error s = record {
    dead_letter_id = c.new_id s.issued;
    msg_id = m.msg_id;
    envelope = c.serialize m;
    error_id = error;
    failed_at = s.now;
    correlation_id = m.correlation_id;
  }

  pub give_up-Settles :
      (attempt : ℕ) (error : String) (s : State D)
      → IsOwn m (select m s.rows)
      → IsFresh c s
      → Settles m s (abandoned attempt) (give_up c m handler attempt error s)
  unfolding give_up
  give_up-Settles attempt error s own fresh =
      let f = to_dead attempt s.now error in
      let new = f (fresh_row m s.now) in
      let (rows', e, found) = upsert_own m new f s.rows (λ r. (refl, refl)) refl refl own in
      let s' = record s {
        rows = rows';
        dead_letters = s.dead_letters ++ letter_for error s ∷ [];
        issued = s.issued + 1;
      } in
      let eq : give_up c m handler attempt error s ≡ (
        ok (record { outcome = dead_lettered; attempts = attempt; error_id = some error }),
        s',
      ) =
        ground (arith, e, fresh.unused s.issued (omega arith)) in
      subst (Settles m s (abandoned attempt)) (sym eq) (
        error,
        letter_for error s,
        refl,
        refl,
        refl,
        refl,
        refl,
        record {
          row = stored new f (select m s.rows);
          found = found;
          own = stored_id m new f (select m s.rows) (λ r. (refl, refl)) refl own;
          has_status = stored_status (select m s.rows);
          has_attempt = stored_attempt (select m s.rows);
        },
      )
    where
      stored_status :
          (o : Option Row)
          → (stored
              (to_dead attempt s.now error (fresh_row m s.now))
              (to_dead attempt s.now error)
              o).status
            ≡ dead_letter
      stored_status none = refl
      stored_status (some r) = refl

      stored_attempt :
          (o : Option Row)
          → (stored
              (to_dead attempt s.now error (fresh_row m s.now))
              (to_dead attempt s.now error)
              o).attempt
            ≡ attempt
      stored_attempt none = refl
      stored_attempt (some r) = refl

  pub schedule_retry-IsOpen :
      (attempt : ℕ) (error : String) (s : State D)
      → IsOwn m (select m s.rows)
      → IsFinite c.retry_policy
      → suc attempt < c.retry_policy.max_attempts
      → (t : State D) × ((schedule_retry c m handler (suc attempt) error s).0 ≡ ok t)
        × IsOpen m t.rows
        × (t.domain ≡ s.domain)
        × (t.dead_letters ≡ s.dead_letters)
        × (t.issued ≡ s.issued)
  unfolding schedule_retry
  schedule_retry-IsOpen attempt error s own finite left =
      let f = to_retry (suc attempt) error in
      let new = f (fresh_row m s.now) in
      let (rows', e, found) = upsert_own m new f s.rows (λ r. (refl, refl)) refl refl own in
      let (delay, d) = delay_after-ok c.retry_policy attempt finite left in
      (
        record s { rows = rows'; now = s.now + delay },
        ground (arith, e, d),
        record {
          own = rw found (stored_id m new f (select m s.rows) (λ r. (refl, refl)) refl own);
          not_final = rw found (stored_open (select m s.rows));
        },
        refl,
        refl,
        refl,
      )
    where
      stored_open :
          (o : Option Row)
          → is_terminal
              (stored
                (to_retry (suc attempt) error (fresh_row m s.now))
                (to_retry (suc attempt) error)
                o).status
            ≡ false
      stored_open none = refl
      stored_open (some r) = refl
