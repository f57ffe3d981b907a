-- ===== src/Prelude/Pairs.antt =====
-- A dictionary whose keys are pairs of texts, as an association list in insertion order.
use Prim.Native.String.{String}
use mathlib.Core.Path.{◌≡◌, refl, ap, ◌∙◌}
use mathlib.Core.Bool.{Bool, true, ◌&&◌}
use mathlib.Core.List.{List, [], ◌∷◌}
use mathlib.Core.Option.{Option, none, some}
use native.Mathlib.Omega.{arith}
use text.Mathlib.TextEquality.{eq_iff}
use text.Mathlib.TextPositions.{eq_refl}
use brain_inspired_agent.Prelude.Tests.{str_eq, if◌then◌else◌}

abbrev pub same_pair : String × String → String × String → Bool
same_pair a b = str_eq a.0 b.0 && str_eq a.1 b.1

pub same_pair_eq : (a b : String × String) → same_pair a b ≡ true → a ≡ b
same_pair_eq (a, x) (b, y) h =
    let first : a ≡ b = ground (arith, h, eq_iff a b) in
    let second : x ≡ y = ground (arith, h, eq_iff x y) in
    ap (λ t. (t, x)) first ∙ ap (λ t. (b, t)) second

pub same_pair_refl : (a : String × String) → same_pair a a ≡ true
same_pair_refl a = ground (arith, eq_refl a.0, eq_refl a.1)

abbrev pub PairDict {ℓ} : (V : Type ℓ) → Type ℓ
PairDict V = List ((String × String) × V)

module _ {ℓ} {V : Type ℓ} where
  unfoldable pub find_pair : (key : String × String) (entries : PairDict V) → Option V
  find_pair key [] = none
  find_pair key ((name, value) ∷ rest) =
      if same_pair name key then some value else find_pair key rest

  unfoldable pub put_pair : (key : String × String) (new : V) (entries : PairDict V) → PairDict V
  put_pair key new [] = (key, new) ∷ []
  put_pair key new ((name, old) ∷ rest) =
      if same_pair name key then (name, new) ∷ rest else (name, old) ∷ put_pair key new rest

  pub find-put :
      (key other : String × String) (new : V) (entries : PairDict V)
      → find_pair other (put_pair key new entries)
        ≡ (if same_pair key other then some new else find_pair other entries)
  unfolding find_pair put_pair
  find-put key other new [] = refl
  find-put key other new ((name, old) ∷ rest) = ground (
    arith,
    find-put key other new rest,
    eq_iff name.0 key.0,
    eq_iff name.1 key.1,
    eq_iff name.0 other.0,
    eq_iff name.1 other.1,
    eq_iff key.0 other.0,
    eq_iff key.1 other.1,
  )
