-- ===== src/Events/Subscription/Drain.antt =====
-- What becomes of the entries that wait when a subscription is closed.
use mathlib.Core.List.{Perm}
use mathlib.Core.List.Perm
use brain_inspired_agent.Prelude.{
  ℕ, zero, suc, ◌≡◌, refl, sym, ap, ◌∙◌, subst, true, List, [], ◌∷◌, ◌++◌, map, arith, length,
  length-append, Option, none, some,
}
use brain_inspired_agent.Events.Message.{BusMessage, SubscriptionConfig, closed}
use brain_inspired_agent.Events.Subscription.{
  QueueEntry, Subscription, offer, get, deliver, close, Taken, delivered, subscription_closed,
  returned, select_next_entry, first_by_source, take_entry,
}
use brain_inspired_agent.Events.Subscription.Invariant.{Inv}
use brain_inspired_agent.Events.Subscription.Steps.{get-Inv, close-Inv}
use brain_inspired_agent.Events.Subscription.Fifo.{get_lem}

-- The messages of a call of `get`: one or none.
abbrev pub messages_of : Taken → List BusMessage
messages_of (delivered m) = m ∷ []
messages_of _ = []

-- The messages of so many calls of `get` in a row, and the subscription after them.
unfoldable pub gets : ℕ → Subscription → List BusMessage × Subscription
gets zero s = ([], s)
gets (suc n) s = let rest = gets n (get s).1 in (messages_of (get s).0 ++ rest.0, rest.1)

abbrev pub waiting_messages : Subscription → List BusMessage
waiting_messages s = map (λ e. e.message) s.entries

perm_middle : {A : Type 0} (x : A) (xs ys : List A) → Perm (x ∷ (xs ++ ys)) (xs ++ x ∷ ys)
perm_middle x [] ys = Perm.refl (x ∷ ys)
perm_middle x (y ∷ xs) ys =
    Perm.trans (Perm.swap y x (xs ++ ys)) (Perm.cons y (perm_middle x xs ys))

pub map-append_lem :
    (xs ys : List QueueEntry)
    → map (λ e. e.message) (xs ++ ys) ≡ map (λ e. e.message) xs ++ map (λ e. e.message) ys
map-append_lem [] ys = refl
map-append_lem (x ∷ xs) ys = ap (λ l. x.message ∷ l) (map-append_lem xs ys)

get_closed : (s : Subscription) → s.is_closed ≡ true → (get s).1.is_closed ≡ true
unfolding get deliver take_entry
get_closed s h = go (select_next_entry s.entries)
  where
    go : (o : Option QueueEntry) → (deliver o s).1.is_closed ≡ true
    go none = h
    go (some x) = h

abbrev Drained : ℕ → Subscription → Type 0
Drained n s =
    Perm (gets n s).0 (waiting_messages s)
    × ((gets n s).1.entries ≡ [])
    × ((gets n s).1.is_closed ≡ true)

-- One call of `get`, by what it takes.
gets-suc :
    (n : ℕ) (s : Subscription) (x : QueueEntry) (before after : List QueueEntry)
    → (get s).0 ≡ delivered x.message
    → s.entries ≡ before ++ x ∷ after
    → (get s).1.entries ≡ before ++ after
    → Drained n (get s).1
    → Drained (suc n) s
unfolding gets
gets-suc n s x before after d e f (p, done, shut) = (
  subst (λ t. Perm (messages_of t ++ (gets n (get s).1).0) (waiting_messages s)) (sym d)
      (subst (Perm (x.message ∷ (gets n (get s).1).0)) (sym all) (
        Perm.trans (Perm.cons x.message (subst (Perm (gets n (get s).1).0) rest p))
          (perm_middle x.message (map (λ y. y.message) before) (map (λ y. y.message) after)))),
  done,
  shut,
)
  where
    all : waiting_messages s ≡ map (λ y. y.message) before ++ x.message ∷ map (λ y. y.message) after
    all = ap (map (λ y. y.message)) e ∙ map-append_lem before (x ∷ after)

    rest : waiting_messages (get s).1 ≡ map (λ y. y.message) before ++ map (λ y. y.message) after
    rest = ap (map (λ y. y.message)) f ∙ map-append_lem before after

nil_of_length : (es : List QueueEntry) → length es ≡ 0 → es ≡ []
nil_of_length [] h = refl
nil_of_length (x ∷ es) h = absurd (omega (arith, h))

drains :
    (c : SubscriptionConfig) (n : ℕ) (s : Subscription)
    → Inv c s
    → s.is_closed ≡ true
    → length s.entries ≡ n
    → Drained n s
unfolding gets
drains c zero s v shut e =
    let none_left = nil_of_length s.entries e in
    (
      subst (λ es. Perm [] (map (λ y. y.message) es)) (sym none_left) (Perm.refl []),
      none_left,
      shut,
    )
drains c (suc n) s v shut e =
    let (x, around, d, f, _) = get_lem c s v (λ h. absurd (omega (arith, e, ap length h))) in
    let shorter : length (get s).1.entries ≡ n = omega (
      arith,
      e,
      ap length around.split,
      ap length f,
      length-append around.before (x ∷ around.after),
      length-append around.before around.after,
    ) in
    gets-suc n s x around.before around.after d around.split f
      (drains c n (get s).1 (get-Inv c s v) (get_closed s shut) shorter)

offer_closed :
    (c : SubscriptionConfig) (m : BusMessage) (s : Subscription)
    → s.is_closed ≡ true
    → offer c m s ≡ (returned closed, s)
unfolding offer
offer_closed c m s h = ground (arith, h)

get_empty :
    (s : Subscription) → s.entries ≡ [] → s.is_closed ≡ true → get s ≡ (subscription_closed, s)
unfolding get deliver select_next_entry first_by_source
get_empty s e h = ap (λ es. deliver (select_next_entry es) s) e ∙ ground (arith, h)

-- A subscription with the queue's invariant that is closed loses nothing: as many calls of `get` as entries wait deliver
-- the messages that wait, each entry's once, and no other; they leave the queue empty; the next `get` reports
-- the closing rather than to wait; and from the closing on an offer changes nothing.
pub close_drains :
    (c : SubscriptionConfig) (m : BusMessage) (s : Subscription)
    → Inv c s
    → let r = gets (length s.entries) (close s) in
      Perm r.0 (waiting_messages s)
      × (r.1.entries ≡ [])
      × (get r.1 ≡ (subscription_closed, r.1))
      × (offer c m (close s) ≡ (returned closed, close s))
      × (offer c m r.1 ≡ (returned closed, r.1))
unfolding close
close_drains c m s v =
    let (p, left, shut) = drains c (length s.entries) (close s) (close-Inv c s v) refl refl in
    (p, left, get_empty _ left shut, offer_closed c m (close s) refl, offer_closed c m _ shut)
