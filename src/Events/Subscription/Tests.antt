-- ===== src/Events/Subscription/Tests.antt =====
-- Small queues.
use brain_inspired_agent.Prelude.{
  some, lookup, insert, ◌≡◌, false, none, [], ◌∷◌, ◌++◌, length, arith, ◌≢◌,
}
use brain_inspired_agent.Events.Message.{BusMessage, reject, SubscriptionConfig, closed}
use brain_inspired_agent.Events.Subscription.{
  deliver, enqueue, replace, index_key, select_next_entry, first_by_source, highest, QueueEntry,
  Subscription, new, place, offer, get, close, delivered, subscription_closed, returned, outranks,
}
use brain_inspired_agent.Events.Subscription.Order.{Leads, Around}
use brain_inspired_agent.Events.Subscription.Invariant.{Inv}
use brain_inspired_agent.Events.Subscription.Steps.{Reach, fresh, later, offering, Reach-Inv}
use brain_inspired_agent.Events.Subscription.Fifo.{get_lem}
use brain_inspired_agent.Events.Subscription.Drain.{gets, waiting_messages, close_drains}
use brain_inspired_agent.Events.Subscription.Ledger.{Ledger, opened, offered, got}
use brain_inspired_agent.Events.Subscription.Balance.{no_message_lost}
use mathlib.Core.List.{Perm}

abbrev config : SubscriptionConfig
config = record {
  subscription_id = "sub";
  message_types = "tick" ∷ [];
  capacity = 2;
  overflow_policy = reject;
  predicate = none;
  coalesce_key = none;
}

abbrev low : BusMessage
low = record { msg_id = "a"; msg_type = "tick"; source = "clock"; priority = 1 }

abbrev high : BusMessage
high = record { msg_id = "b"; msg_type = "tick"; source = "desk"; priority = 9 }

abbrev one : Subscription
one = (offer config low new).1

abbrev two : Subscription
two = (offer config high one).1

two-Reach : Reach config two
two-Reach = later (later fresh (offering low)) (offering high)

Reach-Inv_example : Inv config two
Reach-Inv_example = Reach-Inv config two-Reach

not_empty : two.entries ≢ []
unfolding offer place new
not_empty e = absurd (ground (arith, e))

get_lem_example :
    (x : QueueEntry) × (around : Around x two.entries) × ((get two).0 ≡ delivered x.message)
    × ((get two).1.entries ≡ around.before ++ around.after)
    × ((y : QueueEntry) → Leads y two.entries → outranks y x ≡ false)
get_lem_example = get_lem config two (Reach-Inv config two-Reach) not_empty

close_drains_example :
    Perm (gets (length two.entries) (close two)).0 (waiting_messages two)
    × ((gets (length two.entries) (close two)).1.entries ≡ [])
    × (get (gets (length two.entries) (close two)).1
        ≡ (subscription_closed, (gets (length two.entries) (close two)).1))
    × (offer config low (close two) ≡ (returned closed, close two))
    × (offer config low (gets (length two.entries) (close two)).1
        ≡ (returned closed, (gets (length two.entries) (close two)).1))
close_drains_example = close_drains config low two (Reach-Inv config two-Reach)

-- The second message takes the place of the first, and is delivered.
abbrev merging : SubscriptionConfig
merging = record config { coalesce_key = some (λ m. m.msg_type) }

abbrev merged : Subscription
merged = (get (offer merging high (offer merging low new).1).1).1

merged-Ledger : Ledger merging (high ∷ low ∷ []) (high ∷ []) (low ∷ []) merged
unfolding offer place new get deliver enqueue replace index_key select_next_entry first_by_source
    highest lookup insert
merged-Ledger = got (offered high (offered low opened))

no_message_lost_example :
    Perm (high ∷ low ∷ []) (((high ∷ []) ++ low ∷ []) ++ waiting_messages merged)
no_message_lost_example = no_message_lost merging merged-Ledger
