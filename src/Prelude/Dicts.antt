-- ===== src/Prelude/Dicts.antt =====
-- A dictionary with text keys as an association list in insertion order: assignment to a present
-- key keeps its place, a new key goes to the end.
use Prim.Native.String.{String}
use mathlib.Core.Path.{◌≡◌, refl}
use mathlib.Core.List.{List, [], ◌∷◌}
use mathlib.Core.Option.{Option, none, some}
use native.Mathlib.Omega.{arith}
use text.Mathlib.TextEquality.{eq_iff}
use brain_inspired_agent.Prelude.Tests.{str_eq, if◌then◌else◌}

abbrev pub Dict {ℓ} : (V : Type ℓ) → Type ℓ
Dict V = List (String × V)

module _ {ℓ} {V : Type ℓ} where
  unfoldable pub lookup : (key : String) (entries : Dict V) → Option V
  lookup key [] = none
  lookup key ((name, value) ∷ rest) = if str_eq name key then some value else lookup key rest

  unfoldable pub insert : (key : String) (new : V) (entries : Dict V) → Dict V
  insert key new [] = (key, new) ∷ []
  insert key new ((name, old) ∷ rest) =
      if str_eq name key then (name, new) ∷ rest else (name, old) ∷ insert key new rest

  unfoldable pub remove : (key : String) (entries : Dict V) → Dict V
  remove key [] = []
  remove key ((name, value) ∷ rest) =
      let others = remove key rest in if str_eq name key then others else (name, value) ∷ others

  pub lookup-insert :
      (key other : String) (new : V) (entries : Dict V)
      → lookup other (insert key new entries)
        ≡ (if str_eq key other then some new else lookup other entries)
  unfolding insert lookup
  lookup-insert key other new [] = refl
  lookup-insert key other new ((name, old) ∷ rest) =
      let ih = lookup-insert key other new rest in
      ground (arith, ih, eq_iff name other, eq_iff name key, eq_iff key other)

  pub lookup-remove :
      (key other : String) (entries : Dict V)
      → lookup other (remove key entries)
        ≡ (if str_eq key other then none else lookup other entries)
  unfolding remove lookup
  lookup-remove key other [] = ground arith
  lookup-remove key other ((name, value) ∷ rest) =
      let ih = lookup-remove key other rest in
      ground (arith, ih, eq_iff name other, eq_iff name key, eq_iff key other)
