-- ===== src/Events/Inbox/Tests.antt =====
-- Deliveries of concrete messages.
use brain_inspired_agent.Prelude.{
  ℕ, ◌+◌, ◌-◌, ◌≡◌, refl, Bool, true, none, some, [], ◌∷◌, arith, Result, ok, raise, if◌then◌else◌,
  ltb,
}
use brain_inspired_agent.Events.Retry.{overflows, float_limit}
use brain_inspired_agent.Events.Retry.Laws.{IsFinite}
use brain_inspired_agent.Events.Inbox.{
  Message, retry_pending, Consumer, State, ConsumptionResult, duplicate, select, state_of, consume,
}
use brain_inspired_agent.Events.Inbox.Verdict.{verdict, Settles}
use brain_inspired_agent.Events.Inbox.Steps.{IsOpen}
use brain_inspired_agent.Events.Inbox.Once.{consume-Settles, consume_twice}
use brain_inspired_agent.Events.Inbox.Redelivery.{IsShared, consume_shared_twice}

abbrev consumer : Consumer Bool
consumer = record {
  retry_policy = record {
    max_attempts = 3;
    backoff = record {
      initial_delay = 10;
      multiplier = record { num = 2; den = 1 };
      max_delay = 60;
    };
  };
  is_retryable = λ e. e;
  serialize = λ m. m.msg_id;
  new_id = λ n. "error";
}

abbrev order : Message
order = record { msg_id = "m-1"; correlation_id = "k"; dedup_key = some "order-1" }

abbrev order_again : Message
order_again = record { msg_id = "m-2"; correlation_id = "k"; dedup_key = some "order-1" }

-- Fails once, in a way that may be retried, and then counts the message.
abbrev flaky : ℕ → ℕ → Result Bool ℕ
flaky attempt d = if ltb attempt 2 then raise true else ok (d + 1)

abbrev count : ℕ → ℕ → Result Bool ℕ
count attempt d = ok (d + 1)

abbrev empty : State ℕ
empty = record { rows = []; dead_letters = []; domain = 0; now = 5; issued = 0 }

-- The state while the first order waits for its second attempt.
abbrev failed_once : State ℕ
failed_once = record {
  rows =
      record {
        msg_id = "m-1";
        dedup_key = some "order-1";
        status = retry_pending;
        attempt = 1;
        received_at = 5;
        processed_at = none;
        error_id = some "error";
        correlation_id = "k";
      }
      ∷ [];
  dead_letters = [];
  domain = 0;
  now = 5;
  issued = 1;
}

consumer-IsFinite : IsFinite consumer.retry_policy
unfolding overflows float_limit
consumer-IsFinite = record {
  valid = record { den_pos = omega arith; at_least_one = omega arith };
  last_fits = refl;
}

order-IsOpen : IsOpen order empty.rows
unfolding select
order-IsOpen = record { own = tt; not_final = refl }

order-IsOpen_later : IsOpen order failed_once.rows
unfolding select
order-IsOpen_later = record { own = refl; not_final = refl }

consume-Settles_example :
    Settles order failed_once
      (verdict consumer.is_retryable flaky
        (3 - (state_of (select order failed_once.rows)).1)
        (state_of (select order failed_once.rows)).1
        0)
      (consume consumer order flaky failed_once)
consume-Settles_example =
    consume-Settles consumer order flaky failed_once consumer-IsFinite order-IsOpen_later
      (record { unused = λ n le. refl }) (omega arith)

consume_twice_example :
    (first : ConsumptionResult) × ((consume consumer order flaky empty).0 ≡ ok first)
    × (consume consumer order count (consume consumer order flaky empty).1 ≡ (
      ok (record { outcome = duplicate; attempts = first.attempts; error_id = none }),
      (consume consumer order flaky empty).1,
    ))
consume_twice_example =
    consume_twice consumer order flaky count empty consumer-IsFinite order-IsOpen
      (record { unused = λ n le. refl }) (omega arith)

shared : IsShared order_again failed_once.rows 1
unfolding select
shared = record {
  row = record {
    msg_id = "m-1";
    dedup_key = some "order-1";
    status = retry_pending;
    attempt = 1;
    received_at = 5;
    processed_at = none;
    error_id = some "error";
    correlation_id = "k";
  };
  found = refl;
  unfinished = refl;
  has_failed = refl;
  no_own = refl;
}

consume_shared_twice_example :
    (consume consumer order_again count (consume consumer order_again count failed_once).1).1
    ≡ record failed_once { domain = 2 }
consume_shared_twice_example =
    consume_shared_twice consumer order_again count 1 failed_once 1 2 shared (omega arith)
      (omega arith) refl refl
