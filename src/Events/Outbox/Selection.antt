-- ===== src/Events/Outbox/Selection.antt =====
-- Which rows a batch of the relay selects.
use brain_inspired_agent.Prelude.{
  ℕ, zero, suc, ◌≡◌, refl, ap, ◌∙◌, Bool, ◌&&◌, List, [], ◌∷◌, length, take, arith, if◌then◌else◌,
  if_elim, All, filter, min,
}
use brain_inspired_agent.Prelude.Sort.{sorted, sum_by, sum_by-sorted, All-sorted}
use brain_inspired_agent.Events.Outbox.{OutboxRow, pending, is_pending, is_due, due_rows}

length-take : {A : Type 0} (n : ℕ) (xs : List A) → length (take n xs) ≡ min n (length xs)
length-take zero xs = omega arith
length-take (suc n) [] = omega arith
length-take (suc n) (x ∷ xs) = omega (arith, length-take n xs)

All-take : {A : Type 0} (P : A → Type 0) (n : ℕ) (xs : List A) → All P xs → All P (take n xs)
All-take P zero xs h = tt
All-take P (suc n) [] h = tt
All-take P (suc n) (x ∷ xs) h = (h.0, All-take P n xs h.1)

abbrev one : {A : Type 0} → A → ℕ
one x = 1

length-sum_by : {A : Type 0} (xs : List A) → length xs ≡ sum_by one xs
length-sum_by [] = refl
length-sum_by (x ∷ xs) = omega (arith, length-sum_by xs)

length-filter :
    {A : Type 0} (t : A → Bool) (xs : List A)
    → length (filter t xs) ≡ sum_by (λ x. if t x then 1 else 0) xs
length-filter t [] = refl
length-filter t (x ∷ xs) = ground (arith, length-filter t xs)

length-sorted :
    {A : Type 0} (less : A → A → Bool) (xs : List A) → length (sorted less xs) ≡ length xs
length-sorted less xs =
    omega (arith, length-sum_by (sorted less xs), length-sum_by xs, sum_by-sorted less one xs)

-- The rows that wait and are due.
abbrev pub due_count : ℕ → List OutboxRow → ℕ
due_count now =
    sum_by (λ r. if is_pending r.publish_state && is_due now r.next_attempt_at then 1 else 0)

pub length-due_rows :
    (now limit : ℕ) (rows : List OutboxRow)
    → length (due_rows now limit rows) ≡ min limit (due_count now rows)
unfolding due_rows
length-due_rows now limit rows =
    length-take limit _
    ∙ ap (min limit) (
        length-sorted _ _
        ∙ length-filter (λ r. is_pending r.publish_state && is_due now r.next_attempt_at) rows)

pub due_rows_pending :
    (now limit : ℕ) (rows : List OutboxRow)
    → All (λ r. r.publish_state ≡ pending) (due_rows now limit rows)
unfolding due_rows
due_rows_pending now limit rows = All-take _ limit _ (All-sorted _ _ _ (waiting rows))
  where
    waiting :
        (rows : List OutboxRow)
        → All
            (λ r. r.publish_state ≡ pending)
            (filter (λ r. is_pending r.publish_state && is_due now r.next_attempt_at) rows)
    waiting [] = tt
    waiting (r ∷ rows) =
        if_elim (All (λ r. r.publish_state ≡ pending))
          (is_pending r.publish_state && is_due now r.next_attempt_at) _ _
          (λ t. (ground (arith, t), waiting rows)) (λ _. waiting rows)
