-- ===== src/Events/Inbox/Once.antt =====
-- `consume` beside its specification, and repeated deliveries.
use brain_inspired_agent.Prelude.{
  ℕ, zero, suc, ◌+◌, ◌-◌, ◌≤◌, len, ◌≡◌, refl, ap, ◌∙◌, true, false, not, ◌||◌, none, [], ◌∷◌, ◌++◌,
  arith, subst, leb, Result, ok, raise, any, str_eq, Bool-cases, Result-cases, inl, inr, sym,
}
use brain_inspired_agent.Events.Retry.Laws.{IsFinite}
use brain_inspired_agent.Events.Inbox.{
  Message, Status, done, dead_letter, Consumer, State, ConsumptionResult, processed, duplicate,
  InboxError, select, is_terminal, is_closed, state_of, run_attempt, give_up, schedule_retry,
  attempt_loop, consume,
}
use brain_inspired_agent.Events.Inbox.Verdict.{
  Verdict, applied, abandoned, verdict, HasRow, Settles,
}
use brain_inspired_agent.Events.Inbox.Steps.{
  IsOpen, IsFresh, run_attempt-ok, run_attempt-raise, give_up-Settles, schedule_retry-IsOpen,
}

module _ {D : Type 0} (m : Message) where
  -- The same outcome, seen from a state with the same domain and dead letters.
  Settles-from :
      (s t : State D) (v : Verdict D) (out : Result InboxError ConsumptionResult × State D)
      → t.domain ≡ s.domain
      → t.dead_letters ≡ s.dead_letters
      → Settles m t v out
      → Settles m s v out
  Settles-from s t (applied a d) out e f (r, dom, dead, row) = (r, dom, dead ∙ f, row)
  Settles-from s t (abandoned a) out e f (x, l, r, dom, dead, id, err, row) =
      (x, l, r, dom ∙ e, dead ∙ ap (λ k. k ++ l ∷ []) f, id, err, row)

  Settles-eq :
      (s : State D) (v v' : Verdict D) (out out' : Result InboxError ConsumptionResult × State D)
      → v ≡ v'
      → out ≡ out'
      → Settles m s v' out'
      → Settles m s v out
  Settles-eq s v v' out out' e f h =
      subst (λ w. Settles m s w out) (sym e) (subst (Settles m s v') (sym f) h)

module _ {D E : Type 0} (c : Consumer E) (m : Message) (handler : ℕ → D → Result E D) where
  abbrev spec : ℕ → ℕ → D → Verdict D
  spec = verdict c.is_retryable handler

  abbrev noted : State D → State D
  noted s = record s { issued = s.issued + 1 }

  -- The loop goes on from `next` when the attempt failed, may be retried, and was recorded.
  loop_retries :
      (rounds attempt previous : ℕ) (s next : State D) (e : E)
      → run_attempt c m handler attempt s ≡ raise e
      → (not (c.is_retryable e) || leb c.retry_policy.max_attempts attempt) ≡ false
      → (schedule_retry c m handler attempt (c.new_id s.issued) (noted s)).0 ≡ ok next
      → attempt_loop c m handler (suc rounds) attempt previous s
        ≡ attempt_loop c m handler rounds (suc attempt) previous next
  unfolding attempt_loop
  loop_retries rounds attempt previous s next e r b n = ground (arith, r, b, n)

  loop_stops :
      (rounds attempt previous : ℕ) (s : State D) (e : E)
      → run_attempt c m handler attempt s ≡ raise e
      → (not (c.is_retryable e) || leb c.retry_policy.max_attempts attempt) ≡ true
      → attempt_loop c m handler (suc rounds) attempt previous s
        ≡ give_up c m handler attempt (c.new_id s.issued) (noted s)
  unfolding attempt_loop
  loop_stops rounds attempt previous s e r b = ground (arith, r, b)

  pub loop_applies :
      (rounds attempt previous : ℕ) (s s' : State D)
      → run_attempt c m handler attempt s ≡ ok (false, s')
      → attempt_loop c m handler (suc rounds) attempt previous s
        ≡ (ok (record { outcome = processed; attempts = attempt; error_id = none }), s')
  unfolding attempt_loop
  loop_applies rounds attempt previous s s' r = ground (arith, r)

  spec_applied :
      (left failed : ℕ) (d d' : D)
      → handler (suc failed) d ≡ ok d'
      → spec (suc left) failed d ≡ applied (suc failed) d'
  unfolding verdict
  spec_applied left failed d d' h = ground (arith, h)

  spec_retries :
      (left failed : ℕ) (d : D) (e : E)
      → handler (suc failed) d ≡ raise e
      → (not (c.is_retryable e) || leb c.retry_policy.max_attempts (suc failed)) ≡ false
      → spec (suc left) failed d ≡ spec left (suc failed) d
  unfolding verdict
  spec_retries left failed d e h b = ground (arith, h, b)

  -- A failure that is final is either not retryable or has used the last attempt.
  spec_stops :
      (left failed : ℕ) (d : D) (e : E)
      → suc left + failed ≡ c.retry_policy.max_attempts
      → handler (suc failed) d ≡ raise e
      → (not (c.is_retryable e) || leb c.retry_policy.max_attempts (suc failed)) ≡ true
      → spec (suc left) failed d ≡ abandoned (suc failed)
  unfolding verdict
  spec_stops zero failed d e fuel h b = ground (arith, h, b)
  spec_stops (suc left) failed d e fuel h b = ground (arith, h, b)

  noted-IsFresh : (s : State D) → IsFresh c s → IsFresh c (noted s)
  noted-IsFresh s h = record { unused = λ n le. h.unused n (omega arith) }

  later-IsFresh :
      (s t : State D)
      → t.dead_letters ≡ s.dead_letters
      → t.issued ≡ s.issued + 1
      → IsFresh c s
      → IsFresh c t
  later-IsFresh s t e f h = record {
    unused = λ n le.
        ap (any (λ l. str_eq l.dead_letter_id (c.new_id n))) e ∙ h.unused n (omega (arith, f));
  }

  abbrev LoopSettles : ℕ → ℕ → ℕ → State D → Type 0
  LoopSettles rounds failed previous s =
      Settles m s (spec rounds failed s.domain)
        (attempt_loop c m handler rounds (suc failed) previous s)

  loop_step :
      (rounds failed previous : ℕ) (s : State D)
      → suc rounds + failed ≡ c.retry_policy.max_attempts
      → IsFinite c.retry_policy
      → IsOpen m s.rows
      → IsFresh c s
      → ((next : State D)
          → leb c.retry_policy.max_attempts (suc failed) ≡ false
          → IsOpen m next.rows
          → IsFresh c next
          → LoopSettles rounds (suc failed) previous next)
      → LoopSettles (suc rounds) failed previous s
  loop_step rounds failed previous s fuel finite o new ih =
      elim (Result-cases (handler (suc failed) s.domain)) [
        | inl (d, h) ↦
            let (s', run, dom, dead, row) = run_attempt-ok c m handler (suc failed) s d o h in
            Settles-eq m s _ _ _ _ (spec_applied rounds failed s.domain d h)
              (loop_applies rounds (suc failed) previous s s' run) (refl, dom, dead, row)
        | inr (e, h) ↦ failing e h (run_attempt-raise c m handler (suc failed) s e o h)
      ]
    where
      failing :
          (e : E)
          → handler (suc failed) s.domain ≡ raise e
          → run_attempt c m handler (suc failed) s ≡ raise e
          → LoopSettles (suc rounds) failed previous s
      failing e h run =
          elim (Bool-cases
            (not (c.is_retryable e) || leb c.retry_policy.max_attempts (suc failed))) [
              | inl b ↦
                  Settles-eq m s _ _ _ _ (spec_stops rounds failed s.domain e fuel h b)
                    (loop_stops rounds (suc failed) previous s e run b)
                    (give_up-Settles c m handler (suc failed) (c.new_id s.issued) (noted s) o.own
                      (noted-IsFresh s new))
              | inr b ↦
                  let (next, n, open', dom, dead, count) =
                    schedule_retry-IsOpen c m handler failed (c.new_id s.issued) (noted s) o.own
                      finite (ground (arith, b)) in
                  Settles-eq m s _ _ _ _
                    (spec_retries rounds failed s.domain e h b
                      ∙ ap (spec rounds (suc failed)) (sym dom))
                    (loop_retries rounds (suc failed) previous s next e run b n)
                    (Settles-from m s next _ _ dom dead
                      (ih next (ground (arith, b)) open' (later-IsFresh s next dead count new)))
            ]

  loop-Settles :
      (rounds failed previous : ℕ) (s : State D)
      → suc rounds + failed ≡ c.retry_policy.max_attempts
      → IsFinite c.retry_policy
      → IsOpen m s.rows
      → IsFresh c s
      → LoopSettles (suc rounds) failed previous s
  loop-Settles zero failed previous s fuel k o new =
      loop_step zero failed previous s fuel k o new (λ next b _ _. absurd (ground (arith, b)))
  loop-Settles (suc rounds) failed previous s fuel k o new =
      loop_step (suc rounds) failed previous s fuel k o new
        (λ next _ o' new'. loop-Settles rounds (suc failed) previous next (omega arith) k o' new')

  abbrev pub failures : State D → ℕ
  failures s = (state_of (select m s.rows)).1

  no_rounds-Settles :
      (previous : ℕ) (s : State D)
      → IsOpen m s.rows
      → IsFresh c s
      → Settles m s (abandoned previous) (attempt_loop c m handler zero (suc previous) previous s)
  unfolding attempt_loop
  no_rounds-Settles previous s o new =
      give_up-Settles c m handler previous (c.new_id s.issued) (noted s) o.own (noted-IsFresh s new)

  rounds-Settles :
      (rounds previous : ℕ) (s : State D)
      → c.retry_policy.max_attempts - previous ≡ rounds
      → IsFinite c.retry_policy
      → IsOpen m s.rows
      → IsFresh c s
      → LoopSettles rounds previous previous s
  unfolding verdict
  rounds-Settles zero previous s e k o new = no_rounds-Settles previous s o new
  rounds-Settles (suc rounds) previous s e k o new =
      loop-Settles rounds previous previous s (omega arith) k o new

  pub consume_open :
      (s : State D)
      → is_closed (select m s.rows) ≡ false
      → len (c.serialize m) ≤ 65536
      → consume c m handler s
        ≡ attempt_loop c m handler
            (c.retry_policy.max_attempts - failures s)
            (suc (failures s))
            (failures s)
            s
  unfolding consume
  consume_open s e small = ground arith

  -- Under a policy whose delays fit a float, and with identifiers that no dead letter has: a message whose
  -- row, if any, is its own and not final, and whose envelope is small enough, is settled by one call as
  -- its verdict says: the handler's effect on the domain is kept exactly
  -- when an attempt succeeds, within the attempts that the policy leaves, and then the row is
  -- completed; otherwise the domain is unchanged, the row is a dead letter and one dead letter is added.
  pub consume-Settles :
      (s : State D)
      → IsFinite c.retry_policy
      → IsOpen m s.rows
      → IsFresh c s
      → len (c.serialize m) ≤ 65536
      → Settles m s
          (verdict c.is_retryable handler
            (c.retry_policy.max_attempts - (state_of (select m s.rows)).1)
            (state_of (select m s.rows)).1
            s.domain)
          (consume c m handler s)
  consume-Settles s k o new small =
      rw (consume_open s o.not_final small) (rounds-Settles _ (failures s) s refl k o new)

  -- A second delivery of a settled message, with any handler, is a duplicate that reports the
  -- recorded attempts and changes nothing.
  pub consume_again :
      (s : State D) (status : Status) (attempt : ℕ)
      → HasRow m s.rows status attempt
      → is_terminal status ≡ true
      → len (c.serialize m) ≤ 65536
      → consume c m handler s
        ≡ (ok (record { outcome = duplicate; attempts = attempt; error_id = none }), s)
  unfolding consume state_of
  consume_again s status attempt h t small = ground (arith, h.found, h.has_status, h.has_attempt)

module _ {D E : Type 0} (c : Consumer E) (m : Message) (h h' : ℕ → D → Result E D) where
  abbrev AgainIsDuplicate : Result InboxError ConsumptionResult × State D → Type 0
  AgainIsDuplicate out =
      (first : ConsumptionResult) × (out.0 ≡ ok first)
      × (consume c m h' out.1 ≡ (
        ok (record { outcome = duplicate; attempts = first.attempts; error_id = none }),
        out.1,
      ))

  again :
      (s : State D) (v : Verdict D) (out : Result InboxError ConsumptionResult × State D)
      → len (c.serialize m) ≤ 65536
      → Settles m s v out
      → AgainIsDuplicate out
  again s (applied a d) out small t = (_, t.0, consume_again c m h' out.1 done a t.3 refl small)
  again s (abandoned a) out small t =
      (_, t.2, consume_again c m h' out.1 dead_letter a t.7 refl small)

  -- Under the conditions of `consume-Settles`, delivering one message twice, with handlers that may differ, has the effect of delivering it
  -- once: the first call returns a result, and the second reports a duplicate with the same number
  -- of attempts and leaves the tables, the domain and the clock as the first left them.
  pub consume_twice :
      (s : State D)
      → IsFinite c.retry_policy
      → IsOpen m s.rows
      → IsFresh c s
      → len (c.serialize m) ≤ 65536
      → (first : ConsumptionResult) × ((consume c m h s).0 ≡ ok first)
        × (consume c m h' (consume c m h s).1 ≡ (
          ok (record { outcome = duplicate; attempts = first.attempts; error_id = none }),
          (consume c m h s).1,
        ))
  consume_twice s k o new small =
      again s _ (consume c m h s) small (consume-Settles c m h s k o new small)
