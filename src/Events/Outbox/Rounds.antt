-- ===== src/Events/Outbox/Rounds.antt =====
-- The rounds of a batch, and what they make of a row.
use brain_inspired_agent.Prelude.{
  ℕ, ◌+◌, String, ◌≡◌, refl, sym, ap, ◌∙◌, subst, Bool, true, false, ◌&&◌, some, none, List, [],
  ◌∷◌, str_eq, eq_iff, arith, if◌then◌else◌, if_elim, ok, ◌⊎◌, inl, inr,
}
use brain_inspired_agent.Events.Retry.{OutboxRetryPolicy, delay_after}
use brain_inspired_agent.Events.Outbox.{
  OutboxRow, OutboxStatus, pending, published, is_pending, update_pending,
}

-- What a round saw: the selected row, whether its delivery was acknowledged, and the clock after it.
pub record Round : Type 0 where
  pub row : OutboxRow
  pub is_acked : Bool
  pub at : ℕ

abbrev pub Occurs : Round → List Round → Type 0
Occurs o [] = ⊥
Occurs o (p ∷ ps) = (p ≡ o) ⊎ Occurs o ps

-- No round is about the event with this identifier.
abbrev pub IsAbsent : String → List Round → Type 0
IsAbsent id [] = Unit
IsAbsent id (o ∷ os) = (str_eq id o.row.event_id ≡ false) × IsAbsent id os

abbrev pub acks : List Round → ℕ
acks [] = 0
acks (o ∷ os) = (if o.is_acked then 1 else 0) + acks os

-- What a round makes of its pending row `r`: published if the delivery was acknowledged, and otherwise
-- due again after the delay of its attempt.
abbrev pub After : OutboxRetryPolicy → Round → OutboxRow → OutboxRow → Type 0
After p o r s =
    ((o.is_acked ≡ true)
      × (s ≡ record r {
        publish_state = published;
        attempt = o.row.attempt + 1;
        published_at = some o.at;
        next_attempt_at = none;
      }))
    ⊎ ((delay : ℕ) × (o.is_acked ≡ false)
        × (delay_after p (o.row.attempt + 1) ≡ ok delay)
        × (s ≡ record r { attempt = o.row.attempt + 1; next_attempt_at = some (o.at + delay) }))

-- A row after rounds: changed as a round about its event says, if it was pending and there is one, and
-- otherwise as it was.
abbrev pub IsSettled : OutboxRetryPolicy → List Round → OutboxRow → OutboxRow → Type 0
IsSettled p os r s =
    ((s ≡ r) × ((r.publish_state ≡ published) ⊎ IsAbsent r.event_id os))
    ⊎ ((o : Round) × Occurs o os
        × (r.event_id ≡ o.row.event_id)
        × (r.publish_state ≡ pending)
        × After p o r s)

-- Two tables of the same length, related row by row.
abbrev pub Each : (OutboxRow → OutboxRow → Type 0) → List OutboxRow → List OutboxRow → Type 0
Each R [] [] = Unit
Each R (r ∷ rs) (s ∷ ss) = R r s × Each R rs ss
Each R _ _ = ⊥

-- One round's effect on a row.
abbrev pub Stepped : OutboxRetryPolicy → Round → OutboxRow → OutboxRow → Type 0
Stepped p o r s =
    ((s ≡ r) × ((r.publish_state ≡ published) ⊎ (str_eq r.event_id o.row.event_id ≡ false)))
    ⊎ ((r.event_id ≡ o.row.event_id) × (r.publish_state ≡ pending) × After p o r s)

not_published : {A : Type 0} {s : OutboxStatus} → s ≡ pending → s ≡ published → A
not_published e f = absurd (ground (arith, e, f))

module _ (p : OutboxRetryPolicy) where
  -- A later round's change overwrites that of an earlier one.
  After-trans :
      (o o' : Round) (r s t : OutboxRow)
      → After p o r s
      → s.publish_state ≡ pending
      → After p o' s t
      → After p o' r t
  After-trans o o' r s t (inl (a, e)) q g = not_published q (ap (λ x. x.publish_state) e)
  After-trans o o' r s t (inr (d, a, f, e)) q (inl (b, g)) = inl (
    b,
    g
        ∙ ap {A = OutboxRow} {B = OutboxRow}
            (λ x. record x {
              publish_state = published;
              attempt = o'.row.attempt + 1;
              published_at = some o'.at;
              next_attempt_at = none;
            })
            e,
  )
  After-trans o o' r s t (inr (d, a, f, e)) q (inr (d', b, f', g)) = inr (
    d',
    b,
    f',
    g
        ∙ ap {A = OutboxRow} {B = OutboxRow}
            (λ x. record x { attempt = o'.row.attempt + 1; next_attempt_at = some (o'.at + d') }) e,
  )

  After-id : (o : Round) (r s : OutboxRow) → After p o r s → s.event_id ≡ r.event_id
  After-id o r s (inl (a, e)) = ap (λ x. x.event_id) e
  After-id o r s (inr (d, a, f, e)) = ap (λ x. x.event_id) e

  later :
      (o : Round) (os : List Round) (r t : OutboxRow)
      → (r.publish_state ≡ published) ⊎ (str_eq r.event_id o.row.event_id ≡ false)
      → IsSettled p os r t
      → IsSettled p (o ∷ os) r t
  later o os r t d (inr (o', i, e, q, a)) = inr (o', inr i, e, q, a)
  later o os r t d (inl (e, inl f)) = inl (e, inl f)
  later o os r t (inl g) (inl (e, inr f)) = inl (e, inl g)
  later o os r t (inr g) (inl (e, inr f)) = inl (e, inr (g, f))

  Stepped-IsSettled :
      (o : Round) (os : List Round) (r s t : OutboxRow)
      → Stepped p o r s
      → IsSettled p os s t
      → IsSettled p (o ∷ os) r t
  Stepped-IsSettled o os r s t (inl (e, d)) h =
      later o os r t d (subst (λ x. IsSettled p os x t) e h)
  Stepped-IsSettled o os r s t (inr (i, q, a)) (inl (e, d)) =
      inr (o, inl refl, i, q, subst (After p o r) (sym e) a)
  Stepped-IsSettled o os r s t (inr (i, q, a)) (inr (o', j, i', q', b)) =
      inr (o', inr j, sym (After-id o r s a) ∙ i', q, After-trans o o' r s t a q' b)

  pub Each-Stepped :
      (o : Round) (os : List Round) (xs ys zs : List OutboxRow)
      → Each (Stepped p o) xs ys
      → Each (IsSettled p os) ys zs
      → Each (IsSettled p (o ∷ os)) xs zs
  Each-Stepped o os [] [] [] h j = tt
  Each-Stepped o os (a ∷ xs) (b ∷ ys) (c ∷ zs) h j =
      (Stepped-IsSettled o os a b c h.0 j.0, Each-Stepped o os xs ys zs h.1 j.1)
  Each-Stepped o os [] [] (c ∷ zs) h j = absurd j
  Each-Stepped o os [] (b ∷ ys) zs h j = absurd h
  Each-Stepped o os (a ∷ xs) [] zs h j = absurd h
  Each-Stepped o os (a ∷ xs) (b ∷ ys) [] h j = absurd j

  pub Each-refl : (rows : List OutboxRow) → Each (IsSettled p []) rows rows
  Each-refl [] = tt
  Each-refl (r ∷ rows) = (inl (refl, inr tt), Each-refl rows)

  pub update_pending-Stepped :
      (o : Round) (f : OutboxRow → OutboxRow) (rows : List OutboxRow)
      → ((r : OutboxRow) → After p o r (f r))
      → Each (Stepped p o) rows (update_pending o.row.event_id f rows)
  unfolding update_pending
  update_pending-Stepped o f [] h = tt
  update_pending-Stepped o f (r ∷ rows) h = (
    if_elim (Stepped p o r) (str_eq r.event_id o.row.event_id && is_pending r.publish_state) _ _
        (λ t. inr (ground (arith, t, eq_iff r.event_id o.row.event_id), ground (arith, t), h r))
        (λ t. inl (refl, idle r.publish_state t)),
    update_pending-Stepped o f rows h,
  )
    where
      idle :
          (q : OutboxStatus)
          → (str_eq r.event_id o.row.event_id && is_pending q) ≡ false
          → (q ≡ published) ⊎ (str_eq r.event_id o.row.event_id ≡ false)
      idle pending t = inr (ground (arith, t))
      idle published t = inl refl
