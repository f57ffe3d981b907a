-- ===== src/Events/Subscription.antt =====
-- events/subscription.py: one bounded queue. A queue entry is an object that both the queue and the
-- index by coalescing key hold; its sequence number, which no other entry has, stands for its
-- identity, so the index holds sequence numbers. `offer` and `get` run under one condition variable:
-- each function below is what happens between two waits.
pub mod Order
pub mod Invariant
pub mod Steps
pub mod Fifo
pub mod Drain
pub mod Ledger
pub mod Balance
mod Tests
use brain_inspired_agent.Prelude.{
  ℕ, zero, suc, ◌+◌, ◌<◌, String, Bool, true, false, not, ◌&&◌, ◌||◌, Option, none, some, List, [],
  ◌∷◌, ◌++◌, map, length, has, ltb, leb, ◌==◌, str_eq, if◌then◌else◌, Dict, lookup, insert, remove,
}
use brain_inspired_agent.Events.Message.{
  BusMessage, OverflowPolicy, wait, reject, drop, coalesce, DeliveryOutcome, enqueued, coalesced,
  filtered, dropped, rejected, closed, SubscriptionConfig,
}

-- `_QueueEntry`.
pub record QueueEntry : Type 0 where
  pub sequence : ℕ
  pub message : BusMessage
  pub coalesce_key : Option String

pub record Subscription : Type 0 where
  pub entries : List QueueEntry
  pub coalesced_entries : Dict ℕ
  pub sequence : ℕ
  pub is_closed : Bool
  pub enqueued_count : ℕ
  pub delivered_count : ℕ
  pub coalesced_count : ℕ
  pub filtered_count : ℕ
  pub dropped_count : ℕ
  pub rejected_count : ℕ
  pub wait_count : ℕ

unfoldable pub new : Subscription
new = record {
  entries = [];
  coalesced_entries = [];
  sequence = 0;
  is_closed = false;
  enqueued_count = 0;
  delivered_count = 0;
  coalesced_count = 0;
  filtered_count = 0;
  dropped_count = 0;
  rejected_count = 0;
  wait_count = 0;
}

-- A call of `offer` returns an outcome, raises `EventQueueFullError`, or waits for room.
pub data Offered : Type 0 where
  returned : DeliveryOutcome → Offered
  queue_full waiting : Offered

-- A call of `get` returns a message, raises `SubscriptionClosedError`, or waits for an entry.
pub data Taken : Type 0 where
  delivered : BusMessage → Taken
  subscription_closed blocked : Taken

filter_out : Subscription → Subscription
filter_out s = record s { filtered_count = s.filtered_count + 1 }

-- The predicate's answer, `none` where it raises.
abbrev answer : Option (BusMessage → Option Bool) → BusMessage → Option Bool
answer none m = some true
answer (some p) m = p m

unfoldable pub accepts : SubscriptionConfig → BusMessage → Subscription → Option Bool × Subscription
unfolding filter_out
accepts c m s =
    if not (has m.msg_type c.message_types)
    then (some false, filter_out s)
    else elim (answer c.predicate m) [
      | none ↦ (none, s)
      | some true ↦ (some true, s)
      | some false ↦ (some false, filter_out s)
    ]

abbrev pub key_of : SubscriptionConfig → BusMessage → Option String
key_of c m = elim c.coalesce_key [ none ↦ none | some f ↦ some (f m) ]

abbrev pub indexed : Option String → Dict ℕ → Option ℕ
indexed none d = none
indexed (some k) d = lookup k d

-- A new message in the entry with this identity.
pub replace : ℕ → BusMessage → List QueueEntry → List QueueEntry
replace q m [] = []
replace q m (e ∷ es) = (if e.sequence == q then record e { message = m } else e) ∷ replace q m es

pub index_key : Option String → ℕ → Dict ℕ → Dict ℕ
index_key none q d = d
index_key (some k) q d = insert k q d

-- The end of `offer`: the append, and the entry's place in the index.
pub enqueue : Option String → BusMessage → Subscription → Subscription
enqueue key m s = record s {
  sequence = s.sequence + 1;
  entries = s.entries ++ record { sequence = s.sequence + 1; message = m; coalesce_key = key } ∷ [];
  coalesced_entries = index_key key (s.sequence + 1) s.coalesced_entries;
  enqueued_count = s.enqueued_count + 1;
}

-- `_handle_full_queue`, up to the wait.
pub handle_full_queue : OverflowPolicy → Subscription → Offered × Subscription
handle_full_queue drop s = (returned dropped, record s { dropped_count = s.dropped_count + 1 })
handle_full_queue wait s = (waiting, record s { wait_count = s.wait_count + 1 })
handle_full_queue _ s = (queue_full, record s { rejected_count = s.rejected_count + 1 })

-- `offer` on an open queue, by what the index holds for the message's key.
unfoldable pub place :
    SubscriptionConfig → BusMessage → Subscription → Option ℕ → Offered × Subscription
unfolding enqueue handle_full_queue
place c m s (some q) = (
  returned coalesced,
  record s { entries = replace q m s.entries; coalesced_count = s.coalesced_count + 1 },
)
place c m s none =
    if leb c.capacity (length s.entries)
    then handle_full_queue c.overflow_policy s
    else (returned enqueued, enqueue (key_of c m) m s)

unfoldable pub offer : SubscriptionConfig → BusMessage → Subscription → Offered × Subscription
offer c m s =
    if s.is_closed
    then (returned closed, s)
    else place c m s (indexed (key_of c m) s.coalesced_entries)

-- What a waiting `offer` wakes up for, what it does then, and what it does when its time is up.
abbrev pub may_resume : SubscriptionConfig → Subscription → Bool
may_resume c s = ltb (length s.entries) c.capacity || s.is_closed

unfoldable pub resume : SubscriptionConfig → BusMessage → Subscription → Offered × Subscription
unfolding enqueue
resume c m s =
    if s.is_closed then (returned closed, s) else (returned enqueued, enqueue (key_of c m) m s)

unfoldable pub time_out : Subscription → Offered × Subscription
time_out s = (queue_full, record s { rejected_count = s.rejected_count + 1 })

-- `_select_next_entry`: the first entry of each source, then the highest priority among them,
-- the older of two equal ones.
pub first_by_source : List String → List QueueEntry → List QueueEntry
first_by_source seen [] = []
first_by_source seen (e ∷ es) =
    let skipped = first_by_source seen es in
    let kept = e ∷ first_by_source (e.message.source ∷ seen) es in
    if has e.message.source seen then skipped else kept

abbrev pub outranks : QueueEntry → QueueEntry → Bool
outranks e b =
    ltb b.message.priority e.message.priority
    || (e.message.priority == b.message.priority && ltb e.sequence b.sequence)

pub highest : QueueEntry → List QueueEntry → QueueEntry
highest b [] = b
highest b (e ∷ es) = highest (if outranks e b then e else b) es

pub select_next_entry : List QueueEntry → Option QueueEntry
unfolding first_by_source highest
select_next_entry entries = elim (first_by_source [] entries) [
  | [] ↦ none
  | e ∷ es ↦ some (highest e es)
]

pub remove_entry : ℕ → List QueueEntry → List QueueEntry
remove_entry q [] = []
remove_entry q (e ∷ es) = if e.sequence == q then es else e ∷ remove_entry q es

-- The entry leaves the index only if the index holds this very entry.
pub unindex : Option String → ℕ → Dict ℕ → Dict ℕ
unindex none q d = d
unindex (some k) q d = elim (lookup k d) [ none ↦ d | some p ↦ if p == q then remove k d else d ]

pub take_entry : QueueEntry → Subscription → Subscription
take_entry e s = record s {
  entries = remove_entry e.sequence s.entries;
  coalesced_entries = unindex e.coalesce_key e.sequence s.coalesced_entries;
  delivered_count = s.delivered_count + 1;
}

unfoldable pub deliver : Option QueueEntry → Subscription → Taken × Subscription
unfolding take_entry
deliver none s = ((if s.is_closed then subscription_closed else blocked), s)
deliver (some e) s = (delivered e.message, take_entry e s)

unfoldable pub get : Subscription → Taken × Subscription
get s = deliver (select_next_entry s.entries) s

unfoldable pub close : Subscription → Subscription
close s = record s { is_closed = true }

unfoldable pub record_rejected : Subscription → Subscription
record_rejected s = record s { rejected_count = s.rejected_count + 1 }
