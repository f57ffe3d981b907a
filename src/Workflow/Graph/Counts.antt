-- ===== src/Workflow/Graph/Counts.antt =====
-- Finite sets of texts as lists, and how many nodes outside a set lead to a node.
use brain_inspired_agent.Prelude.{
  ◌≤◌, ◌<◌, String, ◌≡◌, refl, ap, ◌∙◌, Bool, true, false, not, ◌&&◌, ◌||◌, List, [], ◌∷◌, ◌++◌,
  filter, length, has, str_eq, str_lt, eq_iff, eq_refl, arith, Bool-cases, inl, inr,
}
use brain_inspired_agent.Prelude.Sort.{sorted, insert_sorted}

-- The list has no text twice.
abbrev pub Distinct : List String → Type 0
Distinct [] = Unit
Distinct (x ∷ xs) = (has x xs ≡ false) × Distinct xs

-- Every member of the first list is one of the second.
abbrev pub Within : List String → List String → Type 0
Within xs ys = (n : String) → has n xs ≡ true → has n ys ≡ true

pub has-append : (k : String) (xs ys : List String) → has k (xs ++ ys) ≡ (has k xs || has k ys)
has-append k [] ys = refl
has-append k (x ∷ xs) ys = ground (arith, has-append k xs ys)

has-insert_sorted :
    (k x : String) (ys : List String) → has k (insert_sorted str_lt x ys) ≡ (str_eq x k || has k ys)
unfolding insert_sorted
has-insert_sorted k x [] = refl
has-insert_sorted k x (y ∷ ys) = ground (arith, has-insert_sorted k x ys)

pub has-sorted : (k : String) (xs : List String) → has k (sorted str_lt xs) ≡ has k xs
unfolding sorted
has-sorted k [] = refl
has-sorted k (x ∷ xs) = ground (arith, has-insert_sorted k x (sorted str_lt xs), has-sorted k xs)

Distinct-insert_sorted :
    (x : String) (ys : List String)
    → has x ys ≡ false
    → Distinct ys
    → Distinct (insert_sorted str_lt x ys)
unfolding insert_sorted
Distinct-insert_sorted x [] h d = (refl, tt)
Distinct-insert_sorted x (y ∷ ys) h d = elim (Bool-cases (str_lt y x)) [
  | inl e ↦ rw e (
    ground (arith, h, d.0, has-insert_sorted y x ys, eq_iff x y, eq_iff y x),
    Distinct-insert_sorted x ys (ground (arith, h)) d.1,
  )
  | inr e ↦ rw e (h, d)
]

pub Distinct-sorted : (xs : List String) → Distinct xs → Distinct (sorted str_lt xs)
unfolding sorted
Distinct-sorted [] d = tt
Distinct-sorted (x ∷ xs) d =
    Distinct-insert_sorted x (sorted str_lt xs) (has-sorted x xs ∙ d.0) (Distinct-sorted xs d.1)

pub Distinct-snoc :
    (xs : List String) (x : String) → has x xs ≡ false → Distinct xs → Distinct (xs ++ x ∷ [])
Distinct-snoc [] x h d = (refl, tt)
Distinct-snoc (y ∷ xs) x h d = (
  ground (arith, h, d.0, has-append y xs (x ∷ []), eq_iff x y, eq_iff y x),
  Distinct-snoc xs x (ground (arith, h)) d.1,
)

pub has-filter :
    (p : String → Bool) (k : String) (xs : List String) → has k (filter p xs) ≡ (has k xs && p k)
has-filter p k [] = refl
has-filter p k (x ∷ xs) = ground (arith, has-filter p k xs, eq_iff x k, ap p {x = x} {y = k})

pub Distinct-filter : (p : String → Bool) (xs : List String) → Distinct xs → Distinct (filter p xs)
Distinct-filter p [] d = tt
Distinct-filter p (x ∷ xs) d = elim (Bool-cases (p x)) [
  | inl e ↦ rw e (ground (arith, has-filter p x xs, d.0), Distinct-filter p xs d.1)
  | inr e ↦ rw e (Distinct-filter p xs d.1)
]

abbrev without : String → List String → List String
without y xs = filter (λ x. not (str_eq x y)) xs

length-without_le : (y : String) (xs : List String) → length (without y xs) ≤ length xs
length-without_le y [] = omega arith
length-without_le y (x ∷ xs) = ground (arith, length-without_le y xs)

length-without :
    (y : String) (xs : List String) → has y xs ≡ true → length (without y xs) < length xs
length-without y [] h = ground (arith, h)
length-without y (x ∷ xs) h = ground (arith, h, length-without y xs, length-without_le y xs)

-- A list without repetition is no longer than a list that has all of its members.
pub length-Distinct_le : (xs ys : List String) → Distinct xs → Within xs ys → length xs ≤ length ys
length-Distinct_le [] ys d w = omega arith
length-Distinct_le (x ∷ xs) ys d w =
    let rest =
      length-Distinct_le xs (without x ys) d.1
        (λ n h. ground (arith, has-filter (λ y. not (str_eq y x)) n ys, w n, h, d.0, eq_iff n x)) in
    omega (arith, rest, length-without x ys (w x (ground (arith, eq_refl x))))

-- And if it is as long, it has them all.
pub Within-Distinct :
    (xs ys : List String) → Distinct xs → Within xs ys → length ys ≤ length xs → Within ys xs
Within-Distinct xs ys d w le n h = elim (Bool-cases (has n xs)) [
  | inl e ↦ e
  | inr e ↦
      let rest = length-Distinct_le xs (without n ys) d (λ k m. ground (
        arith,
        has-filter (λ y. not (str_eq y n)) k ys,
        w k m,
        m,
        e,
        eq_iff k n,
        ap (λ t. has t xs) {x = k} {y = n},
      )) in
      absurd (omega (arith, rest, length-without n ys h))
]
