-- ===== src/Events/Outbox/Relay.antt =====
-- What a batch of the relay does to the rows.
use brain_inspired_agent.Prelude.{
  ℕ, ◌+◌, ◌≡◌, refl, sym, ap, ◌∙◌, subst, Bool, true, false, some, List, [], ◌∷◌, ◌++◌, length,
  arith, if◌then◌else◌, ok, raise, Result, ◌⊎◌, inl, inr, Bool-cases, All, min, length-append,
}
use brain_inspired_agent.Events.Retry.{PolicyError, delay_overflow, overflows, delay_after}
use brain_inspired_agent.Events.Retry.Laws.{delay_after-fits, delay_after-overflows}
use brain_inspired_agent.Events.Outbox.{
  OutboxRow, pending, OutboxRelay, RelayBatchResult, due_rows, confirm, defer, deliver, settle,
  relay_loop, publish_due,
}
use native.Mathlib.Numerals.{unary_clauses}
use brain_inspired_agent.Events.Outbox.Selection.{due_count, length-due_rows, due_rows_pending}
use brain_inspired_agent.Events.Outbox.Rounds.{
  Round, acks, IsSettled, Each, Stepped, Each-Stepped, Each-refl, update_pending-Stepped,
}

module _ {W : Type 0} (k : OutboxRelay W) where
  abbrev pub round : OutboxRow → W → Round
  round r w = record { row = r; is_acked = (deliver k r w).0; at = k.clock (deliver k r w).1 }

  -- The rounds over these rows, each from the world that the one before leaves.
  abbrev pub rounds : List OutboxRow → W → List Round
  rounds [] w = []
  rounds (r ∷ rest) w = round r w ∷ rounds rest (deliver k r w).1

  abbrev Settling : OutboxRow → W → List OutboxRow → Result PolicyError (List OutboxRow) → Type 0
  Settling r w rows out =
      ((rows' : List OutboxRow) × (out ≡ ok rows')
        × Each (Stepped k.retry_policy (round r w)) rows rows')
      ⊎ ((overflows k.retry_policy r.attempt ≡ true) × (out ≡ raise delay_overflow))

  settle-Settling :
      (done : Bool) (r : OutboxRow) (w : W) (rows : List OutboxRow)
      → (deliver k r w).0 ≡ done
      → Settling r w rows (settle k done r (deliver k r w).1 rows)
  unfolding settle confirm defer
  settle-Settling true r w rows d =
      inl (_, refl, update_pending-Stepped k.retry_policy (round r w) _ rows (λ q. inl (d, refl)))
  settle-Settling false r w rows d = elim (Bool-cases (overflows k.retry_policy r.attempt)) [
    | inl o ↦ let e = delay_after-overflows k.retry_policy r.attempt o in inr (o, ground (arith, e))
    | inr o ↦
        let (delay, e) = delay_after-fits k.retry_policy r.attempt o in
        let e' : delay_after k.retry_policy (r.attempt + 1) ≡ ok delay = simp unary_clauses e in
        inl (
          _,
          ground (arith, e),
          update_pending-Stepped k.retry_policy (round r w)
              (λ q. record q {
                attempt = r.attempt + 1;
                next_attempt_at = some (k.clock (deliver k r w).1 + delay);
              })
              rows (λ q. inr (delay, d, e', refl)),
        )
  ]

  -- How a batch ends: with counts that add up, or with the error of a row whose delay overflows.
  abbrev Ends : List OutboxRow → W → List OutboxRow → ℕ → ℕ → Result PolicyError (ℕ × ℕ) → Type 0
  Ends done w left sent late out =
      ((left ≡ [])
        × (late' : ℕ) × (out ≡ ok (sent + acks (rounds done w), late'))
        × (sent + acks (rounds done w) + late' ≡ sent + late + length done))
      ⊎ ((q : OutboxRow) × (rest : List OutboxRow) × (left ≡ q ∷ rest)
          × (overflows k.retry_policy q.attempt ≡ true)
          × (out ≡ raise delay_overflow))

  abbrev Relayed : List OutboxRow → ℕ → ℕ → W → List OutboxRow → Type 0
  Relayed batch sent late w rows =
      (done left : List OutboxRow) × (batch ≡ done ++ left)
      × Each (IsSettled k.retry_policy (rounds done w)) rows (relay_loop k batch sent late w rows).1
      × Ends done w left sent late (relay_loop k batch sent late w rows).0

  relay_loop-cons :
      (r : OutboxRow) (batch : List OutboxRow) (sent late : ℕ) (w : W) (rows rows' : List OutboxRow)
      → settle k (deliver k r w).0 r (deliver k r w).1 rows ≡ ok rows'
      → relay_loop k (r ∷ batch) sent late w rows
        ≡ relay_loop k batch
            (if (deliver k r w).0 then sent + 1 else sent)
            (if (deliver k r w).0 then late else late + 1)
            (deliver k r w).1
            rows'
  unfolding relay_loop
  relay_loop-cons r batch sent late w rows rows' e = ground (arith, e)

  relay_loop-raise :
      (r : OutboxRow) (batch : List OutboxRow) (sent late : ℕ) (w : W) (rows : List OutboxRow)
      → settle k (deliver k r w).0 r (deliver k r w).1 rows ≡ raise delay_overflow
      → relay_loop k (r ∷ batch) sent late w rows ≡ (raise delay_overflow, rows, (deliver k r w).1)
  unfolding relay_loop
  relay_loop-raise r batch sent late w rows e = ground (arith, e)

  Ends-cons :
      (r : OutboxRow) (done left : List OutboxRow) (w : W) (sent late : ℕ)
      (out : Result PolicyError (ℕ × ℕ))
      → Ends done
          (deliver k r w).1
          left
          (if (deliver k r w).0 then sent + 1 else sent)
          (if (deliver k r w).0 then late else late + 1)
          out
      → Ends (r ∷ done) w left sent late out
  Ends-cons r done left w sent late out (inr h) = inr h
  Ends-cons r done left w sent late out (inl (e, late', f, n)) =
      inl (e, late', ground (arith, f), ground (arith, n))

  relay_loop-Relayed :
      (batch : List OutboxRow) (sent late : ℕ) (w : W) (rows : List OutboxRow)
      → Relayed batch sent late w rows
  unfolding relay_loop
  relay_loop-Relayed [] sent late w rows =
      ([], [], refl, Each-refl k.retry_policy rows, inl (refl, late, ground arith, omega arith))
  relay_loop-Relayed (r ∷ batch) sent late w rows =
      step
        (relay_loop-Relayed batch (if (deliver k r w).0 then sent + 1 else sent)
          (if (deliver k r w).0 then late else late + 1) (deliver k r w).1)
        (settle-Settling (deliver k r w).0 r w rows refl)
    where
      step :
          ((rows' : List OutboxRow)
            → Relayed batch
                (if (deliver k r w).0 then sent + 1 else sent)
                (if (deliver k r w).0 then late else late + 1)
                (deliver k r w).1
                rows')
          → Settling r w rows (settle k (deliver k r w).0 r (deliver k r w).1 rows)
          → Relayed (r ∷ batch) sent late w rows
      step ih (inr (o, e)) =
          let same = relay_loop-raise r batch sent late w rows e in
          (
            [],
            r ∷ batch,
            refl,
            rw (same) (Each-refl k.retry_policy rows),
            inr (r, batch, refl, o, ap (λ x. x.0) same),
          )
      step ih (inl (rows', e, one)) =
          let same = relay_loop-cons r batch sent late w rows rows' e in
          let (done, left, split, each, ends) = ih rows' in
          (
            r ∷ done,
            left,
            ap (λ xs. r ∷ xs) split,
            rw (same) (Each-Stepped k.retry_policy (round r w) _ rows rows' _ one each),
            Ends-cons r done left w sent late _ (rw (same) ends),
          )

  publish_due-rows :
      (w : W) (rows : List OutboxRow)
      → (publish_due k w rows).1
        ≡ (relay_loop k (due_rows (k.clock w) k.batch_size rows) 0 0 w rows).1
  unfolding publish_due
  publish_due-rows w rows = refl

  abbrev Ended : W → List OutboxRow → List OutboxRow → List OutboxRow → Type 0
  Ended w rows done left =
      ((left ≡ [])
        × (result : RelayBatchResult) × ((publish_due k w rows).0 ≡ ok result)
        × (result.selected ≡ length (due_rows (k.clock w) k.batch_size rows))
        × (result.published ≡ acks (rounds done w))
        × (result.published + result.deferred ≡ result.selected))
      ⊎ ((q : OutboxRow) × (rest : List OutboxRow) × (left ≡ q ∷ rest)
          × (overflows k.retry_policy q.attempt ≡ true)
          × ((publish_due k w rows).0 ≡ raise delay_overflow))

  publish_due-Ended :
      (w : W) (rows done left : List OutboxRow)
      → due_rows (k.clock w) k.batch_size rows ≡ done ++ left
      → Ends done w left 0 0 (relay_loop k (due_rows (k.clock w) k.batch_size rows) 0 0 w rows).0
      → Ended w rows done left
  unfolding publish_due
  publish_due-Ended w rows done left split (inr (q, rest, e, o, f)) =
      inr (q, rest, e, o, ground (arith, f))
  publish_due-Ended w rows done left split (inl (e, late, f, n)) =
      let batch = due_rows (k.clock w) k.batch_size rows in
      let all : length batch ≡ length done =
        ap length split ∙ (ap (λ l. length (done ++ l)) e ∙ omega (arith, length-append done [])) in
      inl (
        e,
        record { selected = length batch; published = acks (rounds done w); deferred = late },
        ground (arith, f),
        refl,
        refl,
        omega (arith, n, all),
      )

  -- A batch, whatever the codec and the publisher do, and whatever the table holds. It selects
  -- pending rows, as many as are due up to `batch_size`, and takes them in order, up to one whose power of
  -- the multiplier overflows, if there is one; then it raises that error and leaves the later ones to
  -- another batch; else it returns, with as many published as deliveries were acknowledged and the others
  -- deferred. The table keeps its rows in their places. A row with the identifier of a row taken
  -- becomes, if pending, published with the number of attempts, the time and no next attempt where that
  -- delivery was acknowledged, or waits with the number of attempts for the delay that the policy gives them;
  -- a row that is published, or whose identifier was not taken, stays exactly as it was.
  pub publish_due_lem :
      (w : W) (rows : List OutboxRow)
      → let batch = due_rows (k.clock w) k.batch_size rows in
        let out = publish_due k w rows in
        (done left : List OutboxRow) × (batch ≡ done ++ left)
        × All (λ r. r.publish_state ≡ pending) batch
        × (length batch ≡ min k.batch_size (due_count (k.clock w) rows))
        × Each (IsSettled k.retry_policy (rounds done w)) rows out.1
        × (((left ≡ [])
              × (result : RelayBatchResult) × (out.0 ≡ ok result)
              × (result.selected ≡ length batch)
              × (result.published ≡ acks (rounds done w))
              × (result.published + result.deferred ≡ result.selected))
            ⊎ ((q : OutboxRow) × (rest : List OutboxRow) × (left ≡ q ∷ rest)
                × (overflows k.retry_policy q.attempt ≡ true)
                × (out.0 ≡ raise delay_overflow)))
  publish_due_lem w rows =
      let batch = due_rows (k.clock w) k.batch_size rows in
      let (done, left, split, each, ends) = relay_loop-Relayed batch 0 0 w rows in
      (
        done,
        left,
        split,
        due_rows_pending (k.clock w) k.batch_size rows,
        length-due_rows (k.clock w) k.batch_size rows,
        subst (Each (IsSettled k.retry_policy (rounds done w)) rows) (sym (publish_due-rows w rows))
            each,
        publish_due-Ended w rows done left split ends,
      )
