-- ===== src/Events/Subscription/Steps.antt =====
-- The invariant under each operation of events/subscription.py, and the runs of publishers and consumers.
use brain_inspired_agent.Prelude.{
  ℕ, ◌+◌, ◌<◌, String, ◌≡◌, refl, sym, ap, ◌∙◌, subst, Bool, true, false, ◌&&◌, Option, none, some,
  List, [], ◌∷◌, ◌++◌, arith, length, length-append, str_eq, eq_iff, ◌==◌, ==_iff, inl, inr,
  Bool-cases, leb, if_elim, Dict, lookup, lookup-insert, lookup-remove,
}
use brain_inspired_agent.Events.Message.{BusMessage, OverflowPolicy, drop, SubscriptionConfig}
use brain_inspired_agent.Events.Subscription.{
  QueueEntry, Subscription, new, accepts, offer, resume, time_out, get, close, record_rejected,
  may_resume, replace, place, key_of, index_key, indexed, Offered, deliver, enqueue,
  handle_full_queue, remove_entry, unindex, take_entry, select_next_entry,
}
use brain_inspired_agent.Events.Subscription.Order.{Ascends, Leads, select-Leads}
use brain_inspired_agent.Events.Subscription.Invariant.{
  Inv, keyed, holds, length-replace, Ascends-replace, holds-replace, Ascends-append, holds-append,
  Ascends-remove, holds-remove, keyed_of_holds, length-remove,
}

abbrev entry_for : Option String → BusMessage → ℕ → QueueEntry
entry_for key m q = record { sequence = q; message = m; coalesce_key = key }

index_key_sound :
    (key : Option String) (m : BusMessage) (n : ℕ) (es : List QueueEntry) (d : Dict ℕ)
    → ((k : String) (q : ℕ) → lookup k d ≡ some q → holds k q es ≡ true)
    → (k : String) (q : ℕ) → lookup k (index_key key n d) ≡ some q
    → holds k q (es ++ entry_for key m n ∷ []) ≡ true
unfolding index_key
index_key_sound none m n es d h k q e =
    ground (arith, holds-append k q es (entry_for none m n), h k q e)
index_key_sound (some j) m n es d h k q e = ground (
  arith,
  holds-append k q es (entry_for (some j) m n),
  h k q,
  e,
  lookup-insert j k n d,
  ==_iff n q,
)

enqueue-Inv :
    (c : SubscriptionConfig) (key : Option String) (m : BusMessage) (s : Subscription)
    → Inv c s
    → length s.entries < c.capacity
    → Inv c (enqueue key m s)
unfolding enqueue
enqueue-Inv c key m s v room =
    let e = entry_for key m (s.sequence + 1) in
    let more = length-append s.entries (e ∷ []) in
    record {
      within = omega (arith, more);
      counted = omega (arith, more, v.counted);
      numbered = omega (arith, v.numbered);
      ordered = Ascends-append 0 s.sequence s.entries e v.ordered refl;
      sound = index_key_sound key m (s.sequence + 1) s.entries s.coalesced_entries v.sound;
    }

-- A step that only counts.
same_queue-Inv :
    (c : SubscriptionConfig) (s t : Subscription)
    → t.entries ≡ s.entries
    → t.coalesced_entries ≡ s.coalesced_entries
    → t.sequence ≡ s.sequence
    → t.enqueued_count ≡ s.enqueued_count
    → t.delivered_count ≡ s.delivered_count
    → Inv c s
    → Inv c t
same_queue-Inv c s t e i q n d v = record {
  within = omega (arith, ap length e, v.within);
  counted = omega (arith, ap length e, n, d, v.counted);
  numbered = omega (arith, q, n, v.numbered);
  ordered =
      subst (λ x. Ascends 0 x t.sequence) (sym e)
        (subst (λ y. Ascends 0 s.entries y) (sym q) v.ordered);
  sound = λ k p h. ap (holds k p) e ∙ v.sound k p (ap (lookup k) (sym i) ∙ h);
}

handle_full_queue-Inv :
    (c : SubscriptionConfig) (p : OverflowPolicy) (s : Subscription)
    → Inv c s
    → Inv c (handle_full_queue p s).1
unfolding handle_full_queue
handle_full_queue-Inv c drop s v = same_queue-Inv c s _ refl refl refl refl refl v
handle_full_queue-Inv c _ s v = same_queue-Inv c s _ refl refl refl refl refl v

replace-Inv :
    (c : SubscriptionConfig) (m : BusMessage) (q n : ℕ) (s : Subscription)
    → Inv c s
    → Inv c (record s { entries = replace q m s.entries; coalesced_count = n })
replace-Inv c m q n s v = record {
  within = rw length-replace v.within;
  counted = rw length-replace v.counted;
  numbered = v.numbered;
  ordered = Ascends-replace q m 0 s.sequence s.entries v.ordered;
  sound = λ k p e. holds-replace k p q m s.entries ∙ v.sound k p e;
}

abbrev After : SubscriptionConfig → Offered × Subscription → Type 0
After c r = Inv c r.1

place-Inv :
    (c : SubscriptionConfig) (m : BusMessage) (s : Subscription) (i : Option ℕ)
    → Inv c s
    → Inv c (place c m s i).1
unfolding place
place-Inv c m s (some q) v = replace-Inv c m q (s.coalesced_count + 1) s v
place-Inv c m s none v =
    if_elim (After c) (leb c.capacity (length s.entries)) _ _
      (λ _. handle_full_queue-Inv c c.overflow_policy s v)
      (λ h. enqueue-Inv c (key_of c m) m s v (ground (arith, h)))

offer-Inv :
    (c : SubscriptionConfig) (m : BusMessage) (s : Subscription) → Inv c s → Inv c (offer c m s).1
unfolding offer
offer-Inv c m s v =
    if_elim (After c) s.is_closed _ _ (λ _. v)
      (λ _. place-Inv c m s (indexed (key_of c m) s.coalesced_entries) v)

resume-Inv :
    (c : SubscriptionConfig) (m : BusMessage) (s : Subscription)
    → Inv c s
    → may_resume c s ≡ true
    → Inv c (resume c m s).1
unfolding resume
resume-Inv c m s v h =
    if_elim (After c) s.is_closed _ _ (λ _. v)
      (λ open'. enqueue-Inv c (key_of c m) m s v (ground (arith, h, open')))

abbrev names : Option String → String → Bool
names none k = false
names (some j) k = str_eq j k

-- What the index still holds it held before, and not for the entry that left under its key.
unindex-kept :
    (key : Option String) (n : ℕ) (d : Dict ℕ) (k : String) (q : ℕ)
    → lookup k (unindex key n d) ≡ some q
    → (lookup k d ≡ some q) × ((q == n && names key k) ≡ false)
unfolding unindex
unindex-kept none n d k q e = (e, ground arith)
unindex-kept (some j) n d k q e =
    ground (arith, e, lookup-remove j k d, eq_iff j k, ap (λ t. lookup t d) {x = j} {y = k})

-- An index entry that `get` leaves points to an entry that stays.
unindex_sound :
    (x : QueueEntry) (hi : ℕ) (es : List QueueEntry) (d : Dict ℕ)
    → Leads x es
    → Ascends 0 es hi
    → ((k : String) (q : ℕ) → lookup k d ≡ some q → holds k q es ≡ true)
    → (k : String) (q : ℕ) → lookup k (unindex x.coalesce_key x.sequence d) ≡ some q
    → holds k q (remove_entry x.sequence es) ≡ true
unindex_sound x hi es d l a h k q e =
    let (was, other) = unindex-kept x.coalesce_key x.sequence d k q e in
    elim (Bool-cases (q == x.sequence)) [
      | inl t ↦ absurd (clash was other t)
      | inr t ↦ holds-remove k q x.sequence es t (h k q was)
    ]
  where
    clash :
        lookup k d ≡ some q
        → (q == x.sequence && names x.coalesce_key k) ≡ false
        → (q == x.sequence) ≡ true
        → ⊥
    clash was other t =
        let p = (==_iff q x.sequence).0 t in
        let held : holds k x.sequence es ≡ true = subst (λ n. holds k n es ≡ true) p (h k q was) in
        let mine : keyed k x ≡ true = keyed_of_holds k x 0 hi es l a held in
        ground (arith, mine, other, t)

take_entry-Inv :
    (c : SubscriptionConfig) (x : QueueEntry) (s : Subscription)
    → Leads x s.entries
    → Inv c s
    → Inv c (take_entry x s)
unfolding take_entry
take_entry-Inv c x s l v =
    let fewer = length-remove x 0 s.sequence s.entries l v.ordered in
    record {
      within = omega (arith, fewer, v.within);
      counted = omega (arith, fewer, v.counted);
      numbered = v.numbered;
      ordered = Ascends-remove x.sequence 0 s.sequence s.entries v.ordered;
      sound = unindex_sound x s.sequence s.entries s.coalesced_entries l v.ordered v.sound;
    }

deliver-Inv :
    (c : SubscriptionConfig) (o : Option QueueEntry) (s : Subscription)
    → ((x : QueueEntry) → o ≡ some x → Leads x s.entries)
    → Inv c s
    → Inv c (deliver o s).1
unfolding deliver
deliver-Inv c none s l v = v
deliver-Inv c (some x) s l v = take_entry-Inv c x s (l x refl) v

pub get-Inv : (c : SubscriptionConfig) (s : Subscription) → Inv c s → Inv c (get s).1
unfolding get
get-Inv c s v = deliver-Inv c (select_next_entry s.entries) s (select-Leads s.entries) v

accepts-Inv :
    (c : SubscriptionConfig) (m : BusMessage) (s : Subscription) → Inv c s → Inv c (accepts c m s).1
unfolding accepts
accepts-Inv c m s v =
    same_queue-Inv c s _ (ground arith) (ground arith) (ground arith) (ground arith) (ground arith)
      v

-- One thing that a publisher, the consumer or the bus does to the subscription.
pub data Step (c : SubscriptionConfig) : Subscription → Subscription → Type 0 where
  accepting : {s : Subscription} (m : BusMessage) → Step c s (accepts c m s).1
  offering : {s : Subscription} (m : BusMessage) → Step c s (offer c m s).1
  resuming : {s : Subscription} (m : BusMessage) → may_resume c s ≡ true → Step c s (resume c m s).1
  timing_out : {s : Subscription} → Step c s (time_out s).1
  getting : {s : Subscription} → Step c s (get s).1
  closing : {s : Subscription} → Step c s (close s)
  rejecting : {s : Subscription} → Step c s (record_rejected s)

pub data Reach (c : SubscriptionConfig) : Subscription → Type 0 where
  fresh : Reach c new
  later : {s t : Subscription} → Reach c s → Step c s t → Reach c t

pub close-Inv : (c : SubscriptionConfig) (s : Subscription) → Inv c s → Inv c (close s)
unfolding close
close-Inv c s v = same_queue-Inv c s _ refl refl refl refl refl v

-- Every step keeps the invariant.
pub Step-Inv : (c : SubscriptionConfig) {s t : Subscription} → Step c s t → Inv c s → Inv c t
unfolding time_out close record_rejected
Step-Inv c (accepting {s = s} m) v = accepts-Inv c m s v
Step-Inv c (offering {s = s} m) v = offer-Inv c m s v
Step-Inv c (resuming {s = s} m h) v = resume-Inv c m s v h
Step-Inv c (timing_out {s = s}) v = same_queue-Inv c s _ refl refl refl refl refl v
Step-Inv c (getting {s = s}) v = get-Inv c s v
Step-Inv c (closing {s = s}) v = close-Inv c s v
Step-Inv c (rejecting {s = s}) v = same_queue-Inv c s _ refl refl refl refl refl v

pub new-Inv : (c : SubscriptionConfig) → Inv c new
unfolding new lookup
new-Inv c = record {
  within = omega arith;
  counted = omega arith;
  numbered = refl;
  ordered = omega arith;
  sound = λ k q h. cc;
}

-- In every state that publishers, a consumer, timeouts and the bus can bring about, whatever the
-- order of their steps: at most `capacity` entries wait; the count of entries queued is the count of
-- deliveries and the number of waiting entries together, and it is the last number given; the numbers of the
-- waiting entries rise; and an entry that the coalescing index points to still waits under that key.
pub Reach-Inv : (c : SubscriptionConfig) {s : Subscription} → Reach c s → Inv c s
Reach-Inv c fresh = new-Inv c
Reach-Inv c (later r t) = Step-Inv c t (Reach-Inv c r)
