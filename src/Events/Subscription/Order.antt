-- ===== src/Events/Subscription/Order.antt =====
-- The order of the queue's entries, and which entry `get` selects.
use brain_inspired_agent.Prelude.{
  ℕ, ◌≤◌, ◌<◌, String, ◌≡◌, refl, sym, ap, Bool, true, false, none, some, List, [], ◌∷◌, ◌++◌,
  arith, has, str_eq, eq_iff, ◌==◌, All, Memᴰ, ◌⊎◌, inl, inr, if◌then◌else◌, Bool-cases, ◌∙◌, subst,
  ==_iff,
}
use brain_inspired_agent.Events.Subscription.{
  QueueEntry, first_by_source, highest, outranks, select_next_entry, remove_entry,
}

-- Sequence numbers rise from above `lo` to at most `hi`.
abbrev pub Ascends : ℕ → List QueueEntry → ℕ → Type 0
Ascends lo [] hi = lo ≤ hi
Ascends lo (e ∷ es) hi = (lo < e.sequence) × Ascends e.sequence es hi

-- `e` is the oldest entry of its source.
abbrev pub Leads : QueueEntry → List QueueEntry → Type 0
Leads e [] = ⊥
Leads e (x ∷ xs) = (x ≡ e) ⊎ ((str_eq x.message.source e.message.source ≡ false) × Leads e xs)

abbrev same_source : QueueEntry → QueueEntry → Bool
same_source x e = str_eq x.message.source e.message.source

-- The first entries by source are the oldest of their sources.
Selected : List String → List QueueEntry → QueueEntry → Type 0
Selected seen es e = Leads e es × (has e.message.source seen ≡ false)

All-weaken {ℓ κ μ} :
    {A : Type ℓ} (P : A → Type κ) (Q : A → Type μ) (xs : List A)
    → ((x : A) → P x → Q x)
    → All P xs
    → All Q xs
All-weaken P Q [] f h = tt
All-weaken P Q (x ∷ xs) f h = (f x h.0, All-weaken P Q xs f h.1)

not_same_of_seen :
    (seen : List String) (a b : String)
    → has a seen ≡ true
    → has b seen ≡ false
    → str_eq a b ≡ false
not_same_of_seen seen a b h k = ground (arith, eq_iff a b, ap (λ t. has t seen) {x = a} {y = b})

first_by_source-Selected :
    (seen : List String) (es : List QueueEntry) → All (Selected seen es) (first_by_source seen es)
unfolding first_by_source Selected
first_by_source-Selected seen [] = tt
first_by_source-Selected seen (e ∷ es) = elim (Bool-cases (has e.message.source seen)) [
  | inl h ↦ rw h (
      All-weaken (Selected seen es) (Selected seen (e ∷ es)) (first_by_source seen es)
        (λ x s. (inr (not_same_of_seen seen e.message.source x.message.source h s.1, s.0), s.1))
        (first_by_source-Selected seen es))
  | inr h ↦
      let later = e.message.source ∷ seen in
      rw h (
        (inl refl, h),
        All-weaken (Selected later es) (Selected seen (e ∷ es)) (first_by_source later es)
            (λ x s. (inr (ground (arith, s.1), s.0), ground (arith, s.1)))
            (first_by_source-Selected later es),
      )
]

-- Conversely every entry that is the oldest of its source is among them.
first_by_source-mem :
    (seen : List String) (es : List QueueEntry) (x : QueueEntry)
    → Leads x es
    → has x.message.source seen ≡ false
    → Memᴰ x (first_by_source seen es)
unfolding first_by_source
first_by_source-mem seen [] x l h = absurd l
first_by_source-mem seen (e ∷ es) x (inl p) h =
    rw (ap (λ k. has k.message.source seen) p ∙ h) (Memᴰ.head (sym p))
first_by_source-mem seen (e ∷ es) x (inr (ne, l)) h =
    elim (Bool-cases (has e.message.source seen)) [
      | inl t ↦ rw t (first_by_source-mem seen es x l h)
      | inr t ↦
          rw t (
            Memᴰ.tail
              (first_by_source-mem (e.message.source ∷ seen) es x l (ground (arith, ne, h))))
    ]

not_outranked :
    (b e x : QueueEntry) → outranks x b ≡ false → outranks x (if outranks e b then e else b) ≡ false
not_outranked b e x h = ground (arith, h)

itself_not_outranked : (b e : QueueEntry) → outranks e (if outranks e b then e else b) ≡ false
itself_not_outranked b e = ground arith

highest-ge :
    (b x : QueueEntry) (es : List QueueEntry)
    → outranks x b ≡ false
    → outranks x (highest b es) ≡ false
unfolding highest
highest-ge b x [] h = h
highest-ge b x (e ∷ es) h = highest-ge (if outranks e b then e else b) x es (not_outranked b e x h)

highest-All :
    (b : QueueEntry) (es : List QueueEntry) → All (λ x. outranks x (highest b es) ≡ false) es
unfolding highest
highest-All b [] = tt
highest-All b (e ∷ es) = (
  highest-ge (if outranks e b then e else b) e es (itself_not_outranked b e),
  highest-All (if outranks e b then e else b) es,
)

highest-mem : (b : QueueEntry) (es : List QueueEntry) → Memᴰ (highest b es) (b ∷ es)
unfolding highest
highest-mem b [] = Memᴰ.head refl
highest-mem b (e ∷ es) = elim (Bool-cases (outranks e b)) [
  | inl t ↦ rw t (Memᴰ.tail (highest-mem e es))
  | inr t ↦ rw t (skip (highest-mem b es))
]
  where
    skip : Memᴰ (highest b es) (b ∷ es) → Memᴰ (highest b es) (b ∷ e ∷ es)
    skip (Memᴰ.head p) = Memᴰ.head p
    skip (Memᴰ.tail m) = Memᴰ.tail (Memᴰ.tail m)

All-mem {ℓ κ} : {A : Type ℓ} (P : A → Type κ) (xs : List A) (x : A) → All P xs → Memᴰ x xs → P x
All-mem P [] x h m = elim m [ ]
All-mem P (y ∷ xs) x h (Memᴰ.head p) = subst P (sym p) h.0
All-mem P (y ∷ xs) x h (Memᴰ.tail m) = All-mem P xs x h.1 m

-- The selected entry of a queue that is not empty.
pub chosen : QueueEntry → List QueueEntry → QueueEntry
chosen e es = highest e (first_by_source (e.message.source ∷ []) es)

pub select-eq_chosen :
    (e : QueueEntry) (es : List QueueEntry) → select_next_entry (e ∷ es) ≡ some (chosen e es)
unfolding select_next_entry chosen
select-eq_chosen e es = refl

firsts :
    (e : QueueEntry) (es : List QueueEntry)
    → first_by_source [] (e ∷ es) ≡ e ∷ first_by_source (e.message.source ∷ []) es
unfolding first_by_source
firsts e es = refl

pub chosen-Leads : (e : QueueEntry) (es : List QueueEntry) → Leads (chosen e es) (e ∷ es)
unfolding chosen Selected
chosen-Leads e es =
    (All-mem (Selected [] (e ∷ es)) (e ∷ rest) (highest e rest)
      (subst (All (Selected [] (e ∷ es))) (firsts e es) (first_by_source-Selected [] (e ∷ es)))
      (highest-mem e rest)).0
  where
    rest : List QueueEntry
    rest = first_by_source (e.message.source ∷ []) es

pub chosen_highest :
    (e : QueueEntry) (es : List QueueEntry) (x : QueueEntry)
    → Leads x (e ∷ es)
    → outranks x (chosen e es) ≡ false
unfolding chosen
chosen_highest e es x l =
    All-mem (λ y. outranks y (highest e rest) ≡ false) (e ∷ rest) x
      (highest-ge e e rest (ground arith), highest-All e rest)
      (subst (Memᴰ x) (firsts e es) (first_by_source-mem [] (e ∷ es) x l refl))
  where
    rest : List QueueEntry
    rest = first_by_source (e.message.source ∷ []) es

pub select-Leads :
    (es : List QueueEntry) (x : QueueEntry) → select_next_entry es ≡ some x → Leads x es
unfolding select_next_entry
select-Leads [] x h = cc
select-Leads (e ∷ es) x h =
    let same : chosen e es ≡ x = cc (select-eq_chosen e es) in
    subst (λ y. Leads y (e ∷ es)) same (chosen-Leads e es)

pub select_highest :
    (es : List QueueEntry) (x y : QueueEntry)
    → select_next_entry es ≡ some x
    → Leads y es
    → outranks y x ≡ false
select_highest [] x y h l = absurd l
select_highest (e ∷ es) x y h l =
    let same : chosen e es ≡ x = cc (select-eq_chosen e es) in
    subst (λ z. outranks y z ≡ false) same (chosen_highest e es y l)

-- Nothing is selected from an empty queue only.
pub select-none : (es : List QueueEntry) → select_next_entry es ≡ none → es ≡ []
select-none [] h = refl
select-none (e ∷ es) h = cc (select-eq_chosen e es)

-- An entry that leads is in the queue, so its number is above the bound.
pub Leads-gt :
    (x : QueueEntry) (lo hi : ℕ) (es : List QueueEntry)
    → Leads x es
    → Ascends lo es hi
    → lo < x.sequence
Leads-gt x lo hi [] l a = absurd l
Leads-gt x lo hi (e ∷ es) (inl p) a = ground (arith, p, a.0)
Leads-gt x lo hi (e ∷ es) (inr (ne, l)) a = omega (arith, Leads-gt x e.sequence hi es l a.1)

-- The queue around the entry: what stands before it comes from other sources, and to remove it by
-- its identity leaves the rest in order.
pub record Around (x : QueueEntry) (es : List QueueEntry) : Type 0 where
  pub before : List QueueEntry
  pub after : List QueueEntry
  pub split : es ≡ before ++ x ∷ after
  pub others : All (λ e. str_eq e.message.source x.message.source ≡ false) before
  pub removed : remove_entry x.sequence es ≡ before ++ after

pub Leads-Around :
    (x : QueueEntry) (lo hi : ℕ) (es : List QueueEntry)
    → Leads x es
    → Ascends lo es hi
    → Around x es
unfolding remove_entry
Leads-Around x lo hi [] l a = absurd l
Leads-Around x lo hi (e ∷ es) (inl p) a = record {
  before = [];
  after = es;
  split = ap (λ y. y ∷ es) p;
  others = tt;
  removed = rw ((==_iff e.sequence x.sequence).1 (ap (λ y. y.sequence) p)) refl;
}
Leads-Around x lo hi (e ∷ es) (inr (ne, l)) a =
    let r = Leads-Around x e.sequence hi es l a.1 in
    let lt = Leads-gt x e.sequence hi es l a.1 in
    let differ : (e.sequence == x.sequence) ≡ false = ground (arith, lt) in
    record {
      before = e ∷ r.before;
      after = r.after;
      split = ap (◌∷◌ e) r.split;
      others = (ne, r.others);
      removed = rw differ (ap (◌∷◌ e) r.removed);
    }
