-- ===== src/Events/Subscription/Balance.antt =====
-- What becomes of every message that a subscription has accepted.
use mathlib.Core.List.{Perm, perm_middle, perm_append_singleton}
use mathlib.Core.List.Perm
use brain_inspired_agent.Prelude.{
  ℕ, ◌+◌, ◌≤◌, ◌≡◌, refl, sym, ap, ◌∙◌, subst, true, String, List, [], ◌∷◌, ◌++◌, map, arith,
  length, Option, none, some, if_elim, ◌==◌, leb, Bool-cases, inl, inr,
}
use brain_inspired_agent.Events.Message.{BusMessage, SubscriptionConfig, OverflowPolicy, drop, wait}
use brain_inspired_agent.Events.Subscription.{
  QueueEntry, Subscription, new, accepts, offer, resume, time_out, get, close, record_rejected,
  replace, place, key_of, indexed, Offered, Taken, deliver, enqueue, handle_full_queue, take_entry,
  select_next_entry,
}
use brain_inspired_agent.Events.Subscription.Order.{Ascends, Leads-Around, select-Leads}
use brain_inspired_agent.Events.Subscription.Invariant.{Inv, holds}
use brain_inspired_agent.Events.Subscription.Steps.{
  accepting, offering, resuming, timing_out, getting, closing, rejecting, Step-Inv, new-Inv,
}
use brain_inspired_agent.Events.Subscription.Drain.{messages_of, waiting_messages, map-append_lem}
use brain_inspired_agent.Events.Subscription.Ledger.{
  accepted_by, message_at, replaced_by, Ledger, opened, offered, resumed, got, accepted, timed_out,
  shut, refused,
}

abbrev texts : List QueueEntry → List BusMessage
texts = map (λ e. e.message)

abbrev Balance : List BusMessage → List BusMessage → List BusMessage → List QueueEntry → Type 0
Balance a d x es = Perm a ((d ++ x) ++ texts es)

module _ {A : Type 0} where
  taken_out : (l b t : List A) (m : A) → Perm (l ++ (b ++ m ∷ t)) (m ∷ (l ++ (b ++ t)))
  taken_out l b t m = Perm.trans (Perm.append_left l (perm_middle b t)) (perm_middle l (b ++ t))

  put_last : (l w : List A) (m : A) → Perm (m ∷ (l ++ w)) (l ++ (w ++ m ∷ []))
  put_last l w m =
      Perm.symm (Perm.trans (Perm.append_left l (perm_append_singleton m w)) (perm_middle l w))

  swapped :
      (a d x b t : List A) (old m : A)
      → Perm a ((d ++ x) ++ (b ++ old ∷ t))
      → Perm (m ∷ a) ((d ++ old ∷ x) ++ (b ++ m ∷ t))
  swapped a d x b t old m p = Perm.trans (Perm.cons m (Perm.trans p (taken_out (d ++ x) b t old))) (
      Perm.trans (Perm.swap old m ((d ++ x) ++ (b ++ t))) (
        Perm.symm (
          Perm.trans (Perm.append_right (b ++ m ∷ t) (perm_middle d x))
            (Perm.cons old (taken_out (d ++ x) b t m)))))

replace_absent :
    (q lo hi : ℕ) (m : BusMessage) (es : List QueueEntry)
    → q ≤ lo
    → Ascends lo es hi
    → replace q m es ≡ es
unfolding replace
replace_absent q lo hi m [] h a = refl
replace_absent q lo hi m (e ∷ es) h a =
    let rest = replace_absent q e.sequence hi m es (omega (arith, a.0)) a.1 in
    ground (arith, rest, a.0)

abbrev Spot : ℕ → BusMessage → List QueueEntry → Type 0
Spot q m es =
    (b t : List BusMessage) × (old : BusMessage) × (texts es ≡ b ++ old ∷ t)
    × (texts (replace q m es) ≡ b ++ m ∷ t)
    × (message_at q es ≡ old ∷ [])

spot :
    (k : String) (q lo hi : ℕ) (m : BusMessage) (es : List QueueEntry)
    → Ascends lo es hi
    → holds k q es ≡ true
    → Spot q m es
unfolding replace
spot k q lo hi m [] a h = cc
spot k q lo hi m (e ∷ es) a h = elim (Bool-cases (e.sequence == q)) [
  | inl t ↦
      let same : replace q m es ≡ es =
        replace_absent q e.sequence hi m es (ground (arith, t)) a.1 in
      ([], texts es, e.message, refl, rw (t, same) refl, rw t refl)
  | inr t ↦
      let (b, w, old, f, g, n) = spot k q e.sequence hi m es a.1 (ground (arith, h, t)) in
      (e.message ∷ b, w, old, ap (λ l. e.message ∷ l) f, rw t (ap (λ l. e.message ∷ l) g), rw t n)
]

indexed-Spot :
    (c : SubscriptionConfig) (m : BusMessage) (s : Subscription) (key : Option String) (q : ℕ)
    → Inv c s
    → indexed key s.coalesced_entries ≡ some q
    → Spot q m s.entries
indexed-Spot c m s none q v h = absurd (ground (arith, h))
indexed-Spot c m s (some k) q v h = spot k q 0 s.sequence m s.entries v.ordered (v.sound k q h)

-- The balance after a call of `offer`.
abbrev Offers :
    List BusMessage
    → List BusMessage
    → List BusMessage
    → BusMessage
    → Option ℕ
    → List QueueEntry
    → Offered × Subscription
    → Type 0
Offers a d x m i es r = Balance (accepted_by m r.0 ++ a) d (replaced_by r.0 i es ++ x) r.1.entries

module _ (c : SubscriptionConfig) (m : BusMessage) (s : Subscription)
    (a d x : List BusMessage) where
  enqueue-Balance :
      (key : Option String)
      → Balance a d x s.entries
      → Balance (m ∷ a) d x (enqueue key m s).entries
  unfolding enqueue
  enqueue-Balance key p =
      let more =
        map-append_lem s.entries
          (record { sequence = s.sequence + 1; message = m; coalesce_key = key } ∷ []) in
      subst (λ w. Perm (m ∷ a) ((d ++ x) ++ w)) (sym more)
        (Perm.trans (Perm.cons m p) (put_last (d ++ x) (texts s.entries) m))

  full-Balance :
      (o : OverflowPolicy) (i : Option ℕ)
      → Balance a d x s.entries
      → Offers a d x m i s.entries (handle_full_queue o s)
  unfolding handle_full_queue
  full-Balance drop i p = p
  full-Balance wait i p = p
  full-Balance _ i p = p

  place-Balance :
      (i : Option ℕ)
      → ((q : ℕ) → i ≡ some q → Spot q m s.entries)
      → Balance a d x s.entries
      → Offers a d x m i s.entries (place c m s i)
  unfolding place
  place-Balance (some q) h p =
      let (b, t, old, f, g, n) = h q refl in
      rw (n, g) (swapped a d x b t old m (subst (λ w. Perm a ((d ++ x) ++ w)) f p))
  place-Balance none h p =
      if_elim (Offers a d x m none s.entries) (leb c.capacity (length s.entries)) _ _
        (λ _. full-Balance c.overflow_policy none p) (λ _. enqueue-Balance (key_of c m) p)

  offer-Balance :
      Inv c s
      → Balance a d x s.entries
      → Offers a d x m (indexed (key_of c m) s.coalesced_entries) s.entries (offer c m s)
  unfolding offer
  offer-Balance v p =
      let i = indexed (key_of c m) s.coalesced_entries in
      if_elim (Offers a d x m i s.entries) s.is_closed _ _ (λ _. p)
        (λ _. place-Balance i (λ q e. indexed-Spot c m s (key_of c m) q v e) p)

  resume-Balance :
      Balance a d x s.entries
      → Balance (accepted_by m (resume c m s).0 ++ a) d x (resume c m s).1.entries
  unfolding resume
  resume-Balance p =
      if_elim (λ (r : Offered × Subscription). Balance (accepted_by m r.0 ++ a) d x r.1.entries)
        s.is_closed _ _ (λ _. p) (λ _. enqueue-Balance (key_of c m) p)

  accepts-Balance : Balance a d x s.entries → Balance a d x (accepts c m s).1.entries
  unfolding accepts
  accepts-Balance p = subst (Balance a d x) (ground arith) p

module _ (c : SubscriptionConfig) (s : Subscription) (a d x : List BusMessage) where
  abbrev Takes : Taken × Subscription → Type 0
  Takes r = Balance a (messages_of r.0 ++ d) x r.1.entries

  deliver-Balance :
      (o : Option QueueEntry)
      → select_next_entry s.entries ≡ o
      → Inv c s
      → Balance a d x s.entries
      → Takes (deliver o s)
  unfolding deliver take_entry
  deliver-Balance none e v p = if_elim (λ t. Takes (t, s)) s.is_closed _ _ (λ _. p) (λ _. p)
  deliver-Balance (some y) e v p =
      let r = Leads-Around y 0 s.sequence s.entries (select-Leads s.entries y e) v.ordered in
      let before : texts s.entries ≡ texts r.before ++ y.message ∷ texts r.after =
        ap texts r.split ∙ map-append_lem r.before (y ∷ r.after) in
      let after : texts (take_entry y s).entries ≡ texts r.before ++ texts r.after =
        ap texts r.removed ∙ map-append_lem r.before r.after in
      subst (λ w. Perm a (((y.message ∷ d) ++ x) ++ w)) (sym after)
        (Perm.trans (subst (λ w. Perm a ((d ++ x) ++ w)) before p)
          (taken_out (d ++ x) (texts r.before) (texts r.after) y.message))

  get-Balance : Inv c s → Balance a d x s.entries → Takes (get s)
  unfolding get
  get-Balance v p = deliver-Balance (select_next_entry s.entries) refl v p

Ledger-Balance :
    (c : SubscriptionConfig) {a d x : List BusMessage} {s : Subscription}
    → Ledger c a d x s
    → Inv c s × Balance a d x s.entries
unfolding new time_out close record_rejected
Ledger-Balance c opened = (new-Inv c, Perm.refl [])
Ledger-Balance c (offered {a} {d} {x} {s} m l) =
    let (v, p) = Ledger-Balance c l in (Step-Inv c (offering m) v, offer-Balance c m s a d x v p)
Ledger-Balance c (resumed {a} {d} {x} {s} m h l) =
    let (v, p) = Ledger-Balance c l in (Step-Inv c (resuming m h) v, resume-Balance c m s a d x p)
Ledger-Balance c (got {a} {d} {x} {s} l) =
    let (v, p) = Ledger-Balance c l in (Step-Inv c getting v, get-Balance c s a d x v p)
Ledger-Balance c (accepted {a} {d} {x} {s} m l) =
    let (v, p) = Ledger-Balance c l in (Step-Inv c (accepting m) v, accepts-Balance c m s a d x p)
Ledger-Balance c (timed_out l) = let (v, p) = Ledger-Balance c l in (Step-Inv c timing_out v, p)
Ledger-Balance c (shut l) = let (v, p) = Ledger-Balance c l in (Step-Inv c closing v, p)
Ledger-Balance c (refused l) = let (v, p) = Ledger-Balance c l in (Step-Inv c rejecting v, p)

-- Whatever the order in which publishers offer, wait and give up, a consumer takes and the bus closes: the
-- messages that `offer` has accepted are, each as often as it was accepted, those that `get` has delivered,
-- those that a later message of their key has replaced, and those that still wait.
pub no_message_lost :
    (c : SubscriptionConfig) {a d x : List BusMessage} {s : Subscription}
    → Ledger c a d x s
    → Perm a ((d ++ x) ++ waiting_messages s)
no_message_lost c l = (Ledger-Balance c l).1
