-- ===== src/Events/Outbox.antt =====
-- events/outbox.py: the transactional outbox's writer and its relay. The world stands for what lies
-- outside: the bus with its subscribers, which publishing changes, and the clock, which may go on meanwhile.
-- The codec, the schema registry and the reading of the correlation id are parameters; each may
-- fail (`none`, or `false` for the registry). Rows are those of `outbox_event`, in the order of insertion,
-- with its primary key (storage/migrations.py), the event's identifier. Instants are whole microseconds; where the
-- source compares their texts, `text_before` does. An envelope's size is `len`, which counts the bytes of
-- UTF-8. A batch runs alone on the table: rows that its own deliveries append while it runs are not
-- selected by it, and are not modelled.
pub mod Append
pub mod Selection
pub mod Rounds
pub mod Relay
mod Tests
use brain_inspired_agent.Prelude.{
  ℕ, ◌+◌, String, len, Bool, true, false, not, ◌&&◌, ◌||◌, Option, none, some, List, [], ◌∷◌, ◌++◌,
  length, take, filter, any, all, ltb, leb, ◌==◌, str_eq, str_lt, if◌then◌else◌, Result, ok, raise,
}
use brain_inspired_agent.Prelude.Instants.{text_before}
use brain_inspired_agent.Prelude.Sort.{sorted}
use brain_inspired_agent.Events.Retry.{OutboxRetryPolicy, PolicyError, delay_after}
use brain_inspired_agent.Events.Message.{
  BusMessage, DeliveryOutcome, rejected, dropped, closed, DeliveryResult, PublishReport,
}

pub data OutboxStatus : Type 0 where
  pending published : OutboxStatus

pub record OutboxRow : Type 0 where
  pub event_id : String
  pub msg_type : String
  pub envelope : String
  pub publish_state : OutboxStatus
  pub attempt : ℕ
  pub next_attempt_at : Option ℕ
  pub created_at : ℕ
  pub published_at : Option ℕ
  pub correlation_id : String

pub data OutboxError : Type 0 where
  schema_invalid encoding_failed event_too_large no_correlation_id integrity_error : OutboxError

pub record OutboxWriter : Type 0 where
  pub is_valid : BusMessage → Bool
  pub encode : BusMessage → Option String
  pub correlation_id_of : String → Option String

-- The `INSERT`.
pub insert_row : OutboxRow → List OutboxRow → Result OutboxError (List OutboxRow)
insert_row new rows =
    if any (λ r. str_eq r.event_id new.event_id) rows
    then raise integrity_error
    else ok (rows ++ new ∷ [])

abbrev pub new_row : BusMessage → String → String → ℕ → OutboxRow
new_row m envelope correlation now = record {
  event_id = m.msg_id;
  msg_type = m.msg_type;
  envelope = envelope;
  publish_state = pending;
  attempt = 0;
  next_attempt_at = none;
  created_at = now;
  published_at = none;
  correlation_id = correlation;
}

-- `append` from the encoded envelope on.
pub append_envelope :
    OutboxWriter → BusMessage → ℕ → List OutboxRow → String → Result OutboxError (List OutboxRow)
unfolding insert_row
append_envelope w m now rows envelope =
    if ltb 65536 (len envelope)
    then raise event_too_large
    else elim (w.correlation_id_of envelope) [
      | none ↦ raise no_correlation_id
      | some correlation ↦ insert_row (new_row m envelope correlation now) rows
    ]

pub append : OutboxWriter → BusMessage → ℕ → List OutboxRow → Result OutboxError (List OutboxRow)
unfolding append_envelope
append w m now rows = if not (w.is_valid m) then raise schema_invalid else elim (w.encode m) [
  | none ↦ raise encoding_failed
  | some envelope ↦ append_envelope w m now rows envelope
]

abbrev pub is_pending : OutboxStatus → Bool
is_pending pending = true
is_pending published = false

-- The update of the rows that have this identifier and are pending.
pub update_pending : String → (OutboxRow → OutboxRow) → List OutboxRow → List OutboxRow
update_pending id f [] = []
update_pending id f (r ∷ rows) =
    (if str_eq r.event_id id && is_pending r.publish_state then f r else r)
    ∷ update_pending id f rows

abbrev pub is_failure : DeliveryOutcome → Bool
is_failure rejected = true
is_failure dropped = true
is_failure closed = true
is_failure _ = false

pub acknowledged : PublishReport → Bool
acknowledged report = all (λ d. not (is_failure d.outcome)) report.deliveries

pub record RelayBatchResult : Type 0 where
  pub selected : ℕ
  pub published : ℕ
  pub deferred : ℕ

-- The relay's arguments over a world `W`; a codec or a publisher that raises gives `none`.
pub record OutboxRelay (W : Type 0) : Type 0 where
  pub decode : String → Option BusMessage
  pub publish : BusMessage → W → Option PublishReport × W
  pub clock : W → ℕ
  pub retry_policy : OutboxRetryPolicy
  pub batch_size : ℕ

-- `next_attempt_at IS NULL OR next_attempt_at <= ?`.
abbrev pub is_due : ℕ → Option ℕ → Bool
is_due now none = true
is_due now (some at) = not (text_before now at)

abbrev created_before : OutboxRow → OutboxRow → Bool
created_before x y =
    text_before x.created_at y.created_at
    || (x.created_at == y.created_at && str_lt x.event_id y.event_id)

-- The `SELECT` of `publish_due`.
pub due_rows : ℕ → ℕ → List OutboxRow → List OutboxRow
due_rows now limit rows = take limit (
    sorted created_before
      (filter (λ r. is_pending r.publish_state && is_due now r.next_attempt_at) rows))

module _ {W : Type 0} (k : OutboxRelay W) where
  pub confirm : String → ℕ → W → List OutboxRow → List OutboxRow
  unfolding update_pending
  confirm id attempt w rows =
      update_pending id
        (λ r. record r {
          publish_state = published;
          attempt = attempt;
          published_at = some (k.clock w);
          next_attempt_at = none;
        })
        rows

  pub defer : String → ℕ → W → List OutboxRow → Result PolicyError (List OutboxRow)
  unfolding update_pending
  defer id attempt w rows = elim (delay_after k.retry_policy attempt) [
    | raise e ↦ raise e
    | ok delay ↦ ok (
        update_pending id
          (λ r. record r { attempt = attempt; next_attempt_at = some (k.clock w + delay) }) rows)
  ]

  -- The `try` block: whether the delivery was acknowledged, and the world after it.
  pub deliver : OutboxRow → W → Bool × W
  deliver r w = elim (k.decode r.envelope) [
    | none ↦ (false, w)
    | some m ↦ (
      elim (k.publish m w).0 [ none ↦ false | some report ↦ acknowledged report ],
      (k.publish m w).1,
    )
  ]

  -- One round: the rows after it, by whether the delivery was acknowledged.
  pub settle : Bool → OutboxRow → W → List OutboxRow → Result PolicyError (List OutboxRow)
  unfolding confirm defer
  settle true r w rows = ok (confirm r.event_id (r.attempt + 1) w rows)
  settle false r w rows = defer r.event_id (r.attempt + 1) w rows

  -- The loop over the selected rows, with the counts of published and deferred ones. Each round
  -- commits its own transaction, so an error leaves what the rounds before it wrote.
  pub relay_loop :
      List OutboxRow → ℕ → ℕ → W → List OutboxRow → Result PolicyError (ℕ × ℕ) × List OutboxRow × W
  unfolding deliver settle
  relay_loop [] sent late w rows = (ok (sent, late), rows, w)
  relay_loop (r ∷ rest) sent late w rows =
      let (done, w') = deliver r w in
      elim (settle done r w' rows) [
        | raise e ↦ (raise e, rows, w')
        | ok rows' ↦
            relay_loop rest (if done then sent + 1 else sent) (if done then late else late + 1) w'
              rows'
      ]

  -- `publish_due`, with the rows and the world that it leaves.
  pub publish_due : W → List OutboxRow → Result PolicyError RelayBatchResult × List OutboxRow × W
  unfolding relay_loop
  publish_due w rows =
      let batch = due_rows (k.clock w) k.batch_size rows in
      let (out, rows', w') = relay_loop batch 0 0 w rows in
      (
        elim out [
          | raise e ↦ raise e
          | ok (sent, late) ↦
              ok (record { selected = length batch; published = sent; deferred = late })
        ],
        rows',
        w',
      )
