-- ===== src/Events/Subscription/Fifo.antt =====
-- What `get` delivers.
use brain_inspired_agent.Prelude.{◌≡◌, refl, ap, ◌∙◌, false, Option, none, some, [], ◌++◌, ◌≢◌}
use brain_inspired_agent.Events.Message.{SubscriptionConfig}
use brain_inspired_agent.Events.Subscription.{
  QueueEntry, Subscription, get, deliver, delivered, outranks, select_next_entry,
}
use brain_inspired_agent.Events.Subscription.Order.{
  Leads, Around, Leads-Around, select-Leads, select_highest, select-none,
}
use brain_inspired_agent.Events.Subscription.Invariant.{Inv}

-- With the invariant, `get` on a queue that holds an entry, open or closed, delivers one entry: the oldest of its
-- source, which no oldest entry of any source outranks (by priority, then by age). It removes that
-- entry alone and keeps the rest in order.
pub get_lem :
    (c : SubscriptionConfig) (s : Subscription)
    → Inv c s
    → s.entries ≢ []
    → (x : QueueEntry) × (around : Around x s.entries) × ((get s).0 ≡ delivered x.message)
      × ((get s).1.entries ≡ around.before ++ around.after)
      × ((y : QueueEntry) → Leads y s.entries → outranks y x ≡ false)
unfolding get deliver
get_lem c s v h = go (select_next_entry s.entries) refl
  where
    go :
        (o : Option QueueEntry)
        → select_next_entry s.entries ≡ o
        → (x : QueueEntry) × (around : Around x s.entries) × ((get s).0 ≡ delivered x.message)
          × ((get s).1.entries ≡ around.before ++ around.after)
          × ((y : QueueEntry) → Leads y s.entries → outranks y x ≡ false)
    go none e = absurd (h (select-none s.entries e))
    go (some x) e =
        let around = Leads-Around x 0 s.sequence s.entries (select-Leads s.entries x e) v.ordered in
        (
          x,
          around,
          ap (λ o. (deliver o s).0) e,
          ap (λ o. (deliver o s).1.entries) e ∙ around.removed,
          λ y l. select_highest s.entries x y e l,
        )
