-- ===== src/Events/Outbox/Append.antt =====
-- What the writer accepts.
use brain_inspired_agent.Prelude.{
  ℕ, ◌≤◌, String, len, ◌≡◌, true, false, none, some, List, [], ◌∷◌, ◌++◌, any, str_eq, arith, ok,
  ◌↔◌, Option-cases, inl, inr,
}
use brain_inspired_agent.Events.Message.{BusMessage}
use brain_inspired_agent.Events.Outbox.{
  OutboxRow, pending, OutboxWriter, insert_row, append_envelope, append,
}

-- The append that the writer makes, if any: the message is valid and encodes to at most 65536
-- bytes that give a correlation id, and no row has its identifier; then one new row is added.
abbrev pub Appends : OutboxWriter → BusMessage → ℕ → List OutboxRow → List OutboxRow → Type 0
Appends w m now rows rows' =
    (envelope correlation : String) × (w.is_valid m ≡ true)
    × (w.encode m ≡ some envelope)
    × (len envelope ≤ 65536)
    × (w.correlation_id_of envelope ≡ some correlation)
    × (any (λ r. str_eq r.event_id m.msg_id) rows ≡ false)
    × (rows'
        ≡ rows
          ++ record {
            event_id = m.msg_id;
            msg_type = m.msg_type;
            envelope = envelope;
            publish_state = pending;
            attempt = 0;
            next_attempt_at = none;
            created_at = now;
            published_at = none;
            correlation_id = correlation;
          }
            ∷ [])

append-Appends :
    (w : OutboxWriter) (m : BusMessage) (now : ℕ) (rows rows' : List OutboxRow)
    → append w m now rows ≡ ok rows'
    → Appends w m now rows rows'
unfolding append append_envelope insert_row
append-Appends w m now rows rows' h = elim (Option-cases (w.encode m)) [
  | inl e ↦ absurd (ground (arith, e, h))
  | inr (envelope, e) ↦ elim (Option-cases (w.correlation_id_of envelope)) [
    | inl f ↦ absurd (ground (arith, e, f, h))
    | inr (correlation, f) ↦ (
      envelope,
      correlation,
      ground (arith, h),
      e,
      ground (arith, e, f, h),
      f,
      ground (arith, e, f, h),
      ground (arith, e, f, h),
    )
  ]
]

-- The writer appends exactly the events that are valid, encode to at most 65536 bytes with a
-- correlation id, and have an identifier that no row has; an append adds one row, pending and with
-- no attempts, after the others.
pub append_iff :
    (w : OutboxWriter) (m : BusMessage) (now : ℕ) (rows rows' : List OutboxRow)
    → (append w m now rows ≡ ok rows') ↔ Appends w m now rows rows'
unfolding append append_envelope insert_row
append_iff w m now rows rows' = (
  append-Appends w m now rows rows',
  λ (envelope, correlation, v, e, small, f, new, same). ground (arith, v, e, small, f, new, same),
)
