-- ===== src/Prelude/Sort.antt =====
-- The stable sort of the standard library, as an insertion sort by a strict order, and what it
-- keeps: every predicate on members, and the number of members with any property.
use Prim.Native.Nat.{ℕ, ◌+◌}
use mathlib.Core.Path.{◌≡◌, refl}
use mathlib.Core.Bool.{Bool, true, false}
use mathlib.Core.List.{List, [], ◌∷◌, Perm}
use mathlib.Core.List.Perm
use native.Mathlib.Omega.{arith}
use brain_inspired_agent.Prelude.Tests.{if◌then◌else◌, Bool-cases}
use brain_inspired_agent.Prelude.Lists.{All}
use mathlib.Core.Logic.{inl, inr}

module _ {ℓ} {A : Type ℓ} (less : A → A → Bool) where
  -- Insertion before the first member that is not smaller, so equal members keep their order.
  unfoldable pub insert_sorted : A → List A → List A
  insert_sorted x [] = x ∷ []
  insert_sorted x (y ∷ ys) = if less y x then y ∷ insert_sorted x ys else x ∷ y ∷ ys

  unfoldable pub sorted : List A → List A
  unfolding insert_sorted
  sorted [] = []
  sorted (x ∷ xs) = insert_sorted x (sorted xs)

  insert_sorted-perm : (x : A) (ys : List A) → Perm (insert_sorted x ys) (x ∷ ys)
  unfolding insert_sorted
  insert_sorted-perm x [] = Perm.refl (x ∷ [])
  insert_sorted-perm x (y ∷ ys) = elim (Bool-cases (less y x)) [
    | inl h ↦ rw h (Perm.trans (Perm.cons y (insert_sorted-perm x ys)) (Perm.swap x y ys))
    | inr h ↦ rw h (Perm.refl (x ∷ y ∷ ys))
  ]

  -- A sort loses no member and makes none up.
  pub sorted-perm : (xs : List A) → Perm (sorted xs) xs
  unfolding sorted
  sorted-perm [] = Perm.refl []
  sorted-perm (x ∷ xs) =
      Perm.trans (insert_sorted-perm x (sorted xs)) (Perm.cons x (sorted-perm xs))

  All-insert_sorted {κ} :
      (P : A → Type κ) (x : A) (ys : List A) → P x → All P ys → All P (insert_sorted x ys)
  unfolding insert_sorted
  All-insert_sorted P x [] px h = (px, tt)
  All-insert_sorted P x (y ∷ ys) px h = elim (Bool-cases (less y x)) [
    | inl e ↦ rw e (h.0, All-insert_sorted P x ys px h.1)
    | inr e ↦ rw e (px, h)
  ]

  pub All-sorted {κ} : (P : A → Type κ) (xs : List A) → All P xs → All P (sorted xs)
  unfolding sorted
  All-sorted P [] h = h
  All-sorted P (x ∷ xs) h = All-insert_sorted P x (sorted xs) h.0 (All-sorted P xs h.1)

  All-of_insert_sorted {κ} :
      (P : A → Type κ) (x : A) (ys : List A) → All P (insert_sorted x ys) → P x × All P ys
  unfolding insert_sorted
  All-of_insert_sorted P x [] h = (h.0, tt)
  All-of_insert_sorted P x (y ∷ ys) h = split (less y x) h (λ k. All-of_insert_sorted P x ys k)
    where
      split :
          (b : Bool)
          → All P (if b then y ∷ insert_sorted x ys else x ∷ y ∷ ys)
          → (All P (insert_sorted x ys) → P x × All P ys)
          → P x × All P (y ∷ ys)
      split true k ih = let (px, rest) = ih k.1 in (px, (k.0, rest))
      split false k ih = k

  pub All-of_sorted {κ} : (P : A → Type κ) (xs : List A) → All P (sorted xs) → All P xs
  unfolding sorted
  All-of_sorted P [] h = h
  All-of_sorted P (x ∷ xs) h =
      let (px, rest) = All-of_insert_sorted P x (sorted xs) h in (px, All-of_sorted P xs rest)

-- A sum over the members does not depend on their order.
abbrev pub sum_by {ℓ} : {A : Type ℓ} → (A → ℕ) → List A → ℕ
sum_by f [] = 0
sum_by f (x ∷ xs) = f x + sum_by f xs

module _ {ℓ} {A : Type ℓ} (less : A → A → Bool) (f : A → ℕ) where
  sum_by-insert_sorted :
      (x : A) (ys : List A) → sum_by f (insert_sorted less x ys) ≡ f x + sum_by f ys
  unfolding insert_sorted
  sum_by-insert_sorted x [] = refl
  sum_by-insert_sorted x (y ∷ ys) = ground (arith, sum_by-insert_sorted x ys)

  pub sum_by-sorted : (xs : List A) → sum_by f (sorted less xs) ≡ sum_by f xs
  unfolding sorted
  sum_by-sorted [] = refl
  sum_by-sorted (x ∷ xs) = omega (arith, sum_by-insert_sorted x (sorted less xs), sum_by-sorted xs)
