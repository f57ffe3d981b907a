-- ===== src/Cognition/Goals/Select.antt =====
-- The selection of goals.
use brain_inspired_agent.Prelude.{
  ℕ, ◌≤◌, String, ◌≡◌, refl, Bool, true, false, ◌&&◌, ◌||◌, List, [], ◌∷◌, filter, any, has, leb,
  arith, str_eq, eq_refl, if◌then◌else◌, if_elim, All,
}
use brain_inspired_agent.Prelude.Sort.{sorted, insert_sorted, All-sorted, All-of_sorted}
use brain_inspired_agent.Cognition.Goals.{GoalEvaluation, is_available, comes_first, pick, select}

-- Priorities do not rise along the list.
Falls : List GoalEvaluation → Type 0
Falls [] = Unit
Falls (x ∷ xs) = All (λ y. y.goal.priority ≤ x.goal.priority) xs × Falls xs

All-insert :
    (n : ℕ) (x : GoalEvaluation) (ys : List GoalEvaluation)
    → x.goal.priority ≤ n
    → All (λ y. y.goal.priority ≤ n) ys
    → All (λ y. y.goal.priority ≤ n) (insert_sorted comes_first x ys)
unfolding insert_sorted
All-insert n x [] h a = (h, tt)
All-insert n x (y ∷ ys) h a =
    if_elim (All (λ z. z.goal.priority ≤ n)) (comes_first y x) _ _
      (λ _. (a.0, All-insert n x ys h a.1)) (λ _. (h, a))

All-trans :
    (n k : ℕ) (ys : List GoalEvaluation)
    → n ≤ k
    → All (λ y. y.goal.priority ≤ n) ys
    → All (λ y. y.goal.priority ≤ k) ys
All-trans n k [] h a = tt
All-trans n k (y ∷ ys) h a = (omega (arith, a.0), All-trans n k ys h a.1)

first-priority : (y x : GoalEvaluation) → comes_first y x ≡ true → x.goal.priority ≤ y.goal.priority
unfolding comes_first
first-priority y x h = ground (arith, h)

not_first-priority :
    (y x : GoalEvaluation) → comes_first y x ≡ false → y.goal.priority ≤ x.goal.priority
unfolding comes_first
not_first-priority y x h = ground (arith, h)

Falls-insert :
    (x : GoalEvaluation) (ys : List GoalEvaluation)
    → Falls ys
    → Falls (insert_sorted comes_first x ys)
unfolding insert_sorted Falls
Falls-insert x [] f = (tt, tt)
Falls-insert x (y ∷ ys) f =
    if_elim Falls (comes_first y x) _ _
      (λ h. (All-insert y.goal.priority x ys (first-priority y x h) f.0, Falls-insert x ys f.1))
      (λ h.
        let le = not_first-priority y x h in
        ((le, All-trans y.goal.priority x.goal.priority ys le f.0), f))

Falls-sorted : (xs : List GoalEvaluation) → Falls (sorted comes_first xs)
unfolding sorted Falls
Falls-sorted [] = tt
Falls-sorted (x ∷ xs) = Falls-insert x (sorted comes_first xs) (Falls-sorted xs)

-- A goal of the list serves this goal's conflict domain, with at least its priority.
abbrev pub serves : List GoalEvaluation → GoalEvaluation → Bool
serves xs e =
    any
      (λ x.
        str_eq x.goal.conflict_domain e.goal.conflict_domain && leb e.goal.priority x.goal.priority)
      xs

abbrev ServedBy : List String → List GoalEvaluation → GoalEvaluation → Type 0
ServedBy occupied xs e = (has e.goal.conflict_domain occupied || serves xs e) ≡ true

All-served :
    (x : GoalEvaluation) (occupied : List String) (xs ys : List GoalEvaluation)
    → All (λ y. y.goal.priority ≤ x.goal.priority) ys
    → All (ServedBy (x.goal.conflict_domain ∷ occupied) xs) ys
    → All (ServedBy occupied (x ∷ xs)) ys
All-served x occupied xs [] a h = tt
All-served x occupied xs (y ∷ ys) a h =
    (ground (arith, a.0, h.0), All-served x occupied xs ys a.1 h.1)

pick-serves :
    (occupied : List String) (xs : List GoalEvaluation)
    → Falls xs
    → All (ServedBy occupied (pick occupied xs)) xs
unfolding pick Falls
pick-serves occupied [] f = tt
pick-serves occupied (x ∷ xs) f =
    if_elim (λ l. All (ServedBy occupied l) (x ∷ xs)) (has x.goal.conflict_domain occupied) _ _
      (λ h. (ground (arith, h), pick-serves occupied xs f.1))
      (λ h.
        let later = pick (x.goal.conflict_domain ∷ occupied) xs in
        (
          ground (arith, eq_refl x.goal.conflict_domain),
          All-served x occupied later xs f.0
              (pick-serves (x.goal.conflict_domain ∷ occupied) xs f.1),
        ))

-- No two goals of the list share a conflict domain, nor use an occupied one.
abbrev pub Apart : List String → List GoalEvaluation → Type 0
Apart occupied [] = Unit
Apart occupied (x ∷ xs) =
    (has x.goal.conflict_domain occupied ≡ false) × Apart (x.goal.conflict_domain ∷ occupied) xs

pick-Apart : (occupied : List String) (xs : List GoalEvaluation) → Apart occupied (pick occupied xs)
unfolding pick
pick-Apart occupied [] = tt
pick-Apart occupied (x ∷ xs) =
    if_elim (Apart occupied) (has x.goal.conflict_domain occupied) _ _ (λ h. pick-Apart occupied xs)
      (λ h. (h, pick-Apart (x.goal.conflict_domain ∷ occupied) xs))

pick-All {ℓ} :
    (P : GoalEvaluation → Type ℓ) (occupied : List String) (xs : List GoalEvaluation)
    → All P xs
    → All P (pick occupied xs)
unfolding pick
pick-All P occupied [] a = tt
pick-All P occupied (x ∷ xs) a =
    if_elim (All P) (has x.goal.conflict_domain occupied) _ _ (λ h. pick-All P occupied xs a.1)
      (λ h. (a.0, pick-All P (x.goal.conflict_domain ∷ occupied) xs a.1))

abbrev IsAvailable : GoalEvaluation → Type 0
IsAvailable e = is_available e.status ≡ true

All-IsAvailable :
    (es : List GoalEvaluation) → All IsAvailable (filter (λ e. is_available e.status) es)
All-IsAvailable [] = tt
All-IsAvailable (e ∷ es) =
    if_elim (All IsAvailable) (is_available e.status) _ _ (λ h. (h, All-IsAvailable es))
      (λ _. All-IsAvailable es)

All-unfiltered :
    (xs es : List GoalEvaluation)
    → All (λ e. serves xs e ≡ true) (filter (λ e. is_available e.status) es)
    → All (λ e. is_available e.status ≡ true → serves xs e ≡ true) es
All-unfiltered xs [] a = tt
All-unfiltered xs (e ∷ es) a = split (is_available e.status) refl a (λ k. All-unfiltered xs es k)
  where
    split :
        (b : Bool)
        → is_available e.status ≡ b
        → All
            (λ k. serves xs k ≡ true)
            (if b
              then e ∷ filter (λ k. is_available k.status) es
              else filter (λ k. is_available k.status) es)
        → (All (λ k. serves xs k ≡ true) (filter (λ k. is_available k.status) es)
            → All (λ k. is_available k.status ≡ true → serves xs k ≡ true) es)
        → All (λ k. is_available k.status ≡ true → serves xs k ≡ true) (e ∷ es)
    split true h k rest = (λ _. k.0, rest k.1)
    split false h k rest = (λ t. ground (arith, h, t), rest k)

-- The selected goals are available and of different conflict domains, and every available goal's
-- domain is served by a selected goal of at least its priority.
pub select_lem :
    (es : List GoalEvaluation)
    → All (λ e. is_available e.status ≡ true) (select es)
      × Apart [] (select es)
      × All (λ e. is_available e.status ≡ true → serves (select es) e ≡ true) es
unfolding select
select_lem es =
    let candidates = filter (λ e. is_available e.status) es in
    let ranked = sorted comes_first candidates in
    (
      pick-All IsAvailable [] ranked
          (All-sorted comes_first IsAvailable candidates (All-IsAvailable es)),
      pick-Apart [] ranked,
      All-unfiltered (pick [] ranked) es (
          All-of_sorted comes_first (λ e. serves (pick [] ranked) e ≡ true) candidates
            (pick-serves [] ranked (Falls-sorted candidates))),
    )
