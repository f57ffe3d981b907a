-- ===== src/Events/Subscription/Invariant.antt =====
-- What holds of a subscription between two waits, whatever the publishers and the consumer do.
use brain_inspired_agent.Prelude.{
  ℕ, suc, ◌+◌, ◌≤◌, ◌<◌, String, ◌≡◌, refl, sym, ap, ◌∙◌, Bool, true, false, ◌&&◌, ◌||◌, none, some,
  List, [], ◌∷◌, ◌++◌, arith, length, length-append, any, str_eq, ◌==◌, inl, inr, Bool-cases,
  lookup,
}
use brain_inspired_agent.Events.Message.{BusMessage, SubscriptionConfig}
use brain_inspired_agent.Events.Subscription.{QueueEntry, Subscription, replace, remove_entry}
use brain_inspired_agent.Events.Subscription.Order.{Ascends, Leads, Leads-gt, Leads-Around}

abbrev pub keyed : String → QueueEntry → Bool
keyed k e = elim e.coalesce_key [ none ↦ false | some j ↦ str_eq j k ]

-- The queue has the entry with this identity, and its key is `k`.
abbrev pub holds : String → ℕ → List QueueEntry → Bool
holds k q es = any (λ e. e.sequence == q && keyed k e) es

-- At most `capacity` entries wait; the counts of entries queued and of deliveries differ by the number that waits;
-- numbers rise with age; and what the index points to waits under that key.
pub record Inv (c : SubscriptionConfig) (s : Subscription) : Type 0 where
  pub within : length s.entries ≤ c.capacity
  pub counted : s.enqueued_count ≡ s.delivered_count + length s.entries
  pub numbered : s.sequence ≡ s.enqueued_count
  pub ordered : Ascends 0 s.entries s.sequence
  pub sound :
      (k : String) (q : ℕ) → lookup k s.coalesced_entries ≡ some q → holds k q s.entries ≡ true

pub length-replace :
    (q : ℕ) (m : BusMessage) (es : List QueueEntry) → length (replace q m es) ≡ length es
unfolding replace
length-replace q m [] = refl
length-replace q m (e ∷ es) = ap suc (length-replace q m es)

pub Ascends-replace :
    (q : ℕ) (m : BusMessage) (lo hi : ℕ) (es : List QueueEntry)
    → Ascends lo es hi
    → Ascends lo (replace q m es) hi
unfolding replace
Ascends-replace q m lo hi [] a = a
Ascends-replace q m lo hi (e ∷ es) a = elim (Bool-cases (e.sequence == q)) [
  | inl h ↦ rw h (a.0, Ascends-replace q m e.sequence hi es a.1)
  | inr h ↦ rw h (a.0, Ascends-replace q m e.sequence hi es a.1)
]

pub holds-replace :
    (k : String) (p q : ℕ) (m : BusMessage) (es : List QueueEntry)
    → holds k p (replace q m es) ≡ holds k p es
unfolding replace
holds-replace k p q m [] = refl
holds-replace k p q m (e ∷ es) = ground (arith, holds-replace k p q m es)

pub Ascends-append :
    (lo hi : ℕ) (es : List QueueEntry) (e : QueueEntry)
    → Ascends lo es hi
    → e.sequence ≡ hi + 1
    → Ascends lo (es ++ e ∷ []) (hi + 1)
Ascends-append lo hi [] e a h = omega arith
Ascends-append lo hi (x ∷ es) e a h = (a.0, Ascends-append x.sequence hi es e a.1 h)

pub holds-append :
    (k : String) (q : ℕ) (es : List QueueEntry) (e : QueueEntry)
    → holds k q (es ++ e ∷ []) ≡ (holds k q es || (e.sequence == q && keyed k e))
holds-append k q [] e = ground arith
holds-append k q (x ∷ es) e = ground (arith, holds-append k q es e)

Ascends-lower :
    (lo lo' hi : ℕ) (es : List QueueEntry) → lo' ≤ lo → Ascends lo es hi → Ascends lo' es hi
Ascends-lower lo lo' hi [] h a = omega arith
Ascends-lower lo lo' hi (e ∷ es) h a = (omega arith, a.1)

pub Ascends-remove :
    (q lo hi : ℕ) (es : List QueueEntry) → Ascends lo es hi → Ascends lo (remove_entry q es) hi
unfolding remove_entry
Ascends-remove q lo hi [] a = a
Ascends-remove q lo hi (e ∷ es) a = elim (Bool-cases (e.sequence == q)) [
  | inl h ↦ rw h (Ascends-lower e.sequence lo hi es (omega (arith, a.0)) a.1)
  | inr h ↦ rw h (a.0, Ascends-remove q e.sequence hi es a.1)
]

-- Another entry's place is not lost.
pub holds-remove :
    (k : String) (p q : ℕ) (es : List QueueEntry)
    → (p == q) ≡ false
    → holds k p es ≡ true
    → holds k p (remove_entry q es) ≡ true
unfolding remove_entry
holds-remove k p q [] n h = h
holds-remove k p q (e ∷ es) n h = ground (arith, holds-remove k p q es n)

holds-gt :
    (k : String) (q lo hi : ℕ) (es : List QueueEntry)
    → Ascends lo es hi
    → holds k q es ≡ true
    → lo < q
holds-gt k q lo hi [] a h = cc
holds-gt k q lo hi (e ∷ es) a h = ground (arith, a.0, holds-gt k q e.sequence hi es a.1)

-- No two entries have one number.
pub keyed_of_holds :
    (k : String) (x : QueueEntry) (lo hi : ℕ) (es : List QueueEntry)
    → Leads x es
    → Ascends lo es hi
    → holds k x.sequence es ≡ true
    → keyed k x ≡ true
keyed_of_holds k x lo hi [] l a h = absurd l
keyed_of_holds k x lo hi (e ∷ es) (inl p) a h = elim (Bool-cases (keyed k e)) [
  | inl t ↦ ap (keyed k) (sym p) ∙ t
  | inr t ↦ absurd (absent t)
]
  where
    absent : keyed k e ≡ false → ⊥
    absent t =
        let same : e.sequence ≡ x.sequence = ap (λ y. y.sequence) p in
        let gt : holds k x.sequence es ≡ true → e.sequence < x.sequence =
          holds-gt k x.sequence e.sequence hi es a.1 in
        ground (arith, t, h, same, gt)
keyed_of_holds k x lo hi (e ∷ es) (inr (ne, l)) a h =
    keyed_of_holds k x e.sequence hi es l a.1 (ground (arith, h, Leads-gt x e.sequence hi es l a.1))

pub length-remove :
    (x : QueueEntry) (lo hi : ℕ) (es : List QueueEntry)
    → Leads x es
    → Ascends lo es hi
    → length (remove_entry x.sequence es) + 1 ≡ length es
length-remove x lo hi es l a =
    let r = Leads-Around x lo hi es l a in
    let e : length (remove_entry x.sequence es) ≡ length (r.before ++ r.after) =
      ap length r.removed in
    let f : length es ≡ length (r.before ++ x ∷ r.after) = ap length r.split in
    omega (arith, e, f, length-append r.before r.after, length-append r.before (x ∷ r.after))
