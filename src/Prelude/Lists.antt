-- ===== src/Prelude/Lists.antt =====
-- Lists measured by native numbers, Boolean searches and predicates on all members.
use Prim.Native.Nat.{ℕ, zero, suc, ◌+◌}
use Prim.Native.String.{String}
use mathlib.Core.Path.{◌≡◌, refl, sym, ap, ◌∙◌}
use mathlib.Core.Logic.{inl, inr}
use mathlib.Core.Bool.{Bool, true, false, ◌&&◌, ◌||◌}
use mathlib.Core.List.{List, [], ◌∷◌, ◌++◌}
use mathlib.Core.Option.{Option, none, some}
use native.Mathlib.Omega.{arith}
use brain_inspired_agent.Prelude.Tests.{str_eq, if◌then◌else◌, Bool-cases}

module _ {ℓ} {A : Type ℓ} where
  abbrev pub length : List A → ℕ
  length [] = 0
  length (x ∷ xs) = suc (length xs)

  pub length-append : (xs ys : List A) → length (xs ++ ys) ≡ length xs + length ys
  length-append [] ys = omega arith
  length-append (x ∷ xs) ys = omega (arith, length-append xs ys)

  abbrev pub take : ℕ → List A → List A
  take zero xs = []
  take (suc n) [] = []
  take (suc n) (x ∷ xs) = x ∷ take n xs

  abbrev pub drop : ℕ → List A → List A
  drop zero xs = xs
  drop (suc n) [] = []
  drop (suc n) (x ∷ xs) = drop n xs

  pub take-append-drop : (n : ℕ) (xs : List A) → take n xs ++ drop n xs ≡ xs
  take-append-drop zero xs = refl
  take-append-drop (suc n) [] = refl
  take-append-drop (suc n) (x ∷ xs) = ap (◌∷◌ x) (take-append-drop n xs)

  -- Some member passes the test; every member does; the members that pass, in order.
  abbrev pub any : (A → Bool) → List A → Bool
  any p [] = false
  any p (x ∷ xs) = p x || any p xs

  abbrev pub all : (A → Bool) → List A → Bool
  all p [] = true
  all p (x ∷ xs) = p x && all p xs

  abbrev pub filter : (A → Bool) → List A → List A
  filter p [] = []
  filter p (x ∷ xs) = let rest = filter p xs in if p x then x ∷ rest else rest

  -- The first member that passes.
  abbrev pub find? : (A → Bool) → List A → Option A
  find? p [] = none
  find? p (x ∷ xs) = if p x then some x else find? p xs

-- What is found passes the test.
pub find?_holds {ℓ} :
    {A : Type ℓ} (p : A → Bool) (xs : List A) (x : A) → find? p xs ≡ some x → p x ≡ true
find?_holds p [] x h = absurd (ground (arith, h))
find?_holds p (y ∷ ys) x h = elim (Bool-cases (p y)) [
  | inl e ↦ let same : y ≡ x = ground (arith, h, e) in ap p (sym same) ∙ e
  | inr e ↦ find?_holds p ys x (ground (arith, h, e))
]

-- A predicate by recursion computes to tuples, which the tactics read and build.
abbrev pub All {κ ℓ} : {A : Type ℓ} (Q : A → Type κ) (members : List A) → Type κ
All Q [] = Unit
All Q (first ∷ rest) = Q first × All Q rest

pub All-filter {ℓ κ} :
    {A : Type ℓ} (P : A → Type κ) (p : A → Bool) (xs : List A) → All P xs → All P (filter p xs)
All-filter P p [] h = h
All-filter P p (x ∷ xs) h = let rest = All-filter P p xs h.1 in split (p x) rest
  where
    split : (b : Bool) → All P (filter p xs) → All P (if b then x ∷ filter p xs else filter p xs)
    split true r = (h.0, r)
    split false r = r

-- Membership of a text in a list of texts, as the sets of the source test it.
abbrev pub has : String → List String → Bool
has k [] = false
has k (x ∷ xs) = str_eq x k || has k xs
