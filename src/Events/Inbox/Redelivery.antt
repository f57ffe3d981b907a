-- ===== src/Events/Inbox/Redelivery.antt =====
-- A message that shares its deduplication key with another message's unfinished row.
use brain_inspired_agent.Prelude.{
  ℕ, zero, suc, ◌-◌, ◌≤◌, ◌<◌, String, len, ◌≡◌, refl, ◌∙◌, false, none, some, List, [], ◌∷◌, arith,
  str_eq, any, Result, ok,
}
use brain_inspired_agent.Events.Inbox.{
  Message, Row, retry_pending, Consumer, State, processed, select, update_rows, run_attempt,
  attempt_loop, consume, complete, state_of,
}
use brain_inspired_agent.Events.Inbox.Once.{consume_open, loop_applies}

update_rows_absent :
    (id : String) (f : Row → Row) (rows : List Row)
    → any (λ r. str_eq r.msg_id id) rows ≡ false
    → update_rows id f rows ≡ rows
unfolding update_rows
update_rows_absent id f [] h = refl
update_rows_absent id f (r ∷ rows) h = ground (arith, update_rows_absent id f rows)

-- The query finds an unfinished row, and no row has the message's own id.
pub record IsShared (m : Message) (rows : List Row) (failed : ℕ) : Type 0 where
  pub row : Row
  pub found : select m rows ≡ some row
  pub unfinished : row.status ≡ retry_pending
  pub has_failed : row.attempt ≡ failed
  pub no_own : any (λ r. str_eq r.msg_id m.msg_id) rows ≡ false

module _ {D E : Type 0} (c : Consumer E) (m : Message) (handler : ℕ → D → Result E D) where
  run_attempt_shared :
      (failed attempt : ℕ) (s : State D) (d : D)
      → IsShared m s.rows failed
      → handler attempt s.domain ≡ ok d
      → run_attempt c m handler attempt s ≡ ok (false, record s { domain = d })
  unfolding run_attempt
  run_attempt_shared failed attempt s d h e = ground (
    arith,
    h.found,
    h.unfinished,
    e,
    update_rows_absent m.msg_id (complete attempt s.now) s.rows h.no_own,
  )

  shared_rounds :
      (rounds failed : ℕ) (s : State D) (d : D)
      → 0 < rounds
      → IsShared m s.rows failed
      → handler (suc failed) s.domain ≡ ok d
      → attempt_loop c m handler rounds (suc failed) failed s ≡ (
        ok (record { outcome = processed; attempts = suc failed; error_id = none }),
        record s { domain = d },
      )
  shared_rounds zero failed s d p h e = absurd (omega arith)
  shared_rounds (suc rounds) failed s d p h e =
      loop_applies c m handler rounds (suc failed) failed s (record s { domain = d })
        (run_attempt_shared failed (suc failed) s d h e)

  failures_shared :
      (failed : ℕ) (s : State D)
      → IsShared m s.rows failed
      → (state_of (select m s.rows)).1 ≡ failed
  unfolding state_of
  failures_shared failed s h = ground (arith, h.found, h.has_failed)

  -- A message whose query finds only another message's unfinished row, with attempts left, is
  -- reported as processed and its effect on the domain is kept, but no row records it: the tables
  -- stay as they were, so they do not tell the next delivery that this one took place.
  pub consume_shared :
      (failed : ℕ) (s : State D) (d : D)
      → IsShared m s.rows failed
      → failed < c.retry_policy.max_attempts
      → len (c.serialize m) ≤ 65536
      → handler (suc failed) s.domain ≡ ok d
      → consume c m handler s ≡ (
        ok (record { outcome = processed; attempts = suc failed; error_id = none }),
        record s { domain = d },
      )
  consume_shared failed s d h room small e =
      consume_open c m handler s (ground (arith, h.found, h.unfinished)) small
      ∙ (rw (failures_shared failed s h)
          (shared_rounds (c.retry_policy.max_attempts - failed) failed s d (omega arith) h e))

  -- A message whose query finds only another message's unfinished row, with attempts left, an
  -- envelope of at most 65536 bytes and a handler that succeeds both times, has its
  -- handler applied by each of two deliveries: after both the domain is changed twice, and the tables,
  -- the dead letters and the clock are as they were before the first.
  pub consume_shared_twice :
      (failed : ℕ) (s : State D) (d d' : D)
      → IsShared m s.rows failed
      → failed < c.retry_policy.max_attempts
      → len (c.serialize m) ≤ 65536
      → handler (suc failed) s.domain ≡ ok d
      → handler (suc failed) d ≡ ok d'
      → (consume c m handler (consume c m handler s).1).1 ≡ record s { domain = d' }
  consume_shared_twice failed s d d' h room small e e' =
      rw (consume_shared failed s d h room small e)
        (rw (consume_shared failed (record s { domain = d }) d' h room small e') refl)
