-- ===== src/Events/Outbox/Tests.antt =====
-- A relay over a bus that counts what it is given.
use brain_inspired_agent.Prelude.{
  ℕ, ◌+◌, ◌≡◌, true, some, List, [], ◌∷◌, ok, ◌↔◌, ◌==◌, if◌then◌else◌, ◌++◌, All, length, min,
  raise, ◌⊎◌, refl,
}
use brain_inspired_agent.Events.Message.{BusMessage, enqueued, rejected}
use brain_inspired_agent.Events.Outbox.{
  OutboxRow, OutboxWriter, OutboxRelay, RelayBatchResult, new_row, append, publish_due, due_rows,
  pending, update_pending, acknowledged,
}
use brain_inspired_agent.Events.Outbox.Append.{Appends, append_iff}
use brain_inspired_agent.Events.Outbox.Relay.{rounds, publish_due_lem}
use brain_inspired_agent.Events.Outbox.Selection.{due_count}
use brain_inspired_agent.Events.Outbox.Rounds.{acks, IsSettled, Each}
use brain_inspired_agent.Events.Retry.{delay_overflow, overflows, float_limit, delay_after}
use brain_inspired_agent.Prelude.Sort.{sorted}
use brain_inspired_agent.Prelude.Instants.{text_before}

abbrev tick : BusMessage
tick = record { msg_id = "e-1"; msg_type = "clock.tick"; source = "clock"; priority = 1 }

abbrev writer : OutboxWriter
writer = record {
  is_valid = λ m. true;
  encode = λ m. some m.msg_id;
  correlation_id_of = λ e. some e;
}

abbrev one_row : List OutboxRow
one_row = new_row tick "e-1" "e-1" 5 ∷ []

append_iff_example : (append writer tick 5 [] ≡ ok one_row) ↔ Appends writer tick 5 [] one_row
append_iff_example = append_iff writer tick 5 [] one_row

-- The first event is rejected, later ones are taken.
abbrev relay : OutboxRelay ℕ
relay = record {
  decode = λ e. some tick;
  publish = λ m w. (
    some (record {
      msg_id = m.msg_id;
      deliveries =
          record { subscription_id = "sub"; outcome = if w == 0 then rejected else enqueued } ∷ [];
    }),
    w + 1,
  );
  clock = λ w. 10;
  retry_policy = record {
    initial_delay = 1;
    multiplier = record { num = 2; den = 1 };
    max_delay = 300;
  };
  batch_size = 10;
}

publish_due_lem_example :
    (done left : List OutboxRow) × (due_rows 10 10 one_row ≡ done ++ left)
    × All (λ r. r.publish_state ≡ pending) (due_rows 10 10 one_row)
    × (length (due_rows 10 10 one_row) ≡ min 10 (due_count 10 one_row))
    × Each
        (IsSettled relay.retry_policy (rounds relay done 0))
        one_row
        (publish_due relay 0 one_row).1
    × (((left ≡ [])
          × (result : RelayBatchResult) × ((publish_due relay 0 one_row).0 ≡ ok result)
          × (result.selected ≡ length (due_rows 10 10 one_row))
          × (result.published ≡ acks (rounds relay done 0))
          × (result.published + result.deferred ≡ result.selected))
        ⊎ ((q : OutboxRow) × (rest : List OutboxRow) × (left ≡ q ∷ rest)
            × (overflows relay.retry_policy q.attempt ≡ true)
            × ((publish_due relay 0 one_row).0 ≡ raise delay_overflow)))
publish_due_lem_example = publish_due_lem relay 0 one_row

-- The row is deferred by a microsecond, and a row that has failed 1024 times stops the batch.
deferred_once : publish_due relay 0 one_row ≡ (
  ok (record { selected = 1; published = 0; deferred = 1 }),
  record (new_row tick "e-1" "e-1" 5) { attempt = 1; next_attempt_at = some 11 } ∷ [],
  1,
)
unfolding publish_due update_pending due_rows acknowledged delay_after overflows float_limit sorted
    text_before
deferred_once = refl

stopped :
    (publish_due relay 0 (record (new_row tick "e-1" "e-1" 5) { attempt = 1024 } ∷ [])).0
    ≡ raise delay_overflow
unfolding publish_due update_pending due_rows acknowledged delay_after overflows float_limit sorted
    text_before
stopped = refl
