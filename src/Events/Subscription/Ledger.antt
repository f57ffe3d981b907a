-- ===== src/Events/Subscription/Ledger.antt =====
-- The runs of a subscription, with the messages that it accepts, delivers and replaces.
use brain_inspired_agent.Prelude.{
  ℕ, ◌≡◌, true, List, [], ◌∷◌, ◌++◌, Option, none, some, if◌then◌else◌, ◌==◌,
}
use brain_inspired_agent.Events.Message.{BusMessage, SubscriptionConfig, enqueued, coalesced}
use brain_inspired_agent.Events.Subscription.{
  QueueEntry, Subscription, new, accepts, offer, resume, time_out, get, close, record_rejected,
  may_resume, key_of, indexed, Offered, returned,
}
use brain_inspired_agent.Events.Subscription.Drain.{messages_of}

-- The message, if the call took it into the queue, as an entry or into one.
abbrev pub accepted_by : BusMessage → Offered → List BusMessage
accepted_by m (returned enqueued) = m ∷ []
accepted_by m (returned coalesced) = m ∷ []
accepted_by m _ = []

-- The message of the entry with this number.
abbrev pub message_at : ℕ → List QueueEntry → List BusMessage
message_at q [] = []
message_at q (e ∷ es) =
    let rest = message_at q es in if e.sequence == q then e.message ∷ [] else rest

abbrev pub named : Option ℕ → List QueueEntry → List BusMessage
named none es = []
named (some q) es = message_at q es

-- The message that a call of `offer` replaces: that of the entry with its key, where it coalesces.
abbrev pub replaced_by : Offered → Option ℕ → List QueueEntry → List BusMessage
replaced_by (returned coalesced) i es = named i es
replaced_by _ i es = []

-- Runs from a new subscription, with the messages accepted, delivered and replaced so far, the latest first.
pub data Ledger (c : SubscriptionConfig)
    : List BusMessage → List BusMessage → List BusMessage → Subscription → Type 0 where
  opened : Ledger c [] [] [] new
  offered :
      {a d x : List BusMessage} {s : Subscription} (m : BusMessage)
      → Ledger c a d x s
      → Ledger c
          (accepted_by m (offer c m s).0 ++ a)
          d
          (replaced_by (offer c m s).0 (indexed (key_of c m) s.coalesced_entries) s.entries ++ x)
          (offer c m s).1
  resumed :
      {a d x : List BusMessage} {s : Subscription} (m : BusMessage)
      → may_resume c s ≡ true
      → Ledger c a d x s
      → Ledger c (accepted_by m (resume c m s).0 ++ a) d x (resume c m s).1
  got :
      {a d x : List BusMessage} {s : Subscription}
      → Ledger c a d x s
      → Ledger c a (messages_of (get s).0 ++ d) x (get s).1
  accepted :
      {a d x : List BusMessage} {s : Subscription} (m : BusMessage)
      → Ledger c a d x s
      → Ledger c a d x (accepts c m s).1
  timed_out :
      {a d x : List BusMessage} {s : Subscription}
      → Ledger c a d x s
      → Ledger c a d x (time_out s).1
  shut : {a d x : List BusMessage} {s : Subscription} → Ledger c a d x s → Ledger c a d x (close s)
  refused :
      {a d x : List BusMessage} {s : Subscription}
      → Ledger c a d x s
      → Ledger c a d x (record_rejected s)
