-- ===== src/Prelude/Texts.antt =====
-- Patterns on texts: a text as its code points, cut at its dots.
use Prim.Native.Char.{code}
use Prim.Native.Nat.{ℕ}
use Prim.Native.String.{String}
use mathlib.Core.Bool.{Bool, false, ◌&&◌, ◌||◌}
use mathlib.Core.List.{List, [], ◌∷◌}
use brain_inspired_agent.Prelude.Tests.{leb, ◌==◌, if◌then◌else◌}
use brain_inspired_agent.Prelude.Lists.{all}

abbrev pub codes : String → List ℕ
codes String.[] = []
codes (String.◌∷◌ c s) = code c ∷ codes s

abbrev pub is_lower : ℕ → Bool
is_lower c = leb b'a' c && leb c b'z'

abbrev pub is_digit : ℕ → Bool
is_digit c = leb b'0' c && leb c b'9'

abbrev pub is_word : ℕ → Bool
is_word c = is_lower c || (is_digit c || c == b'_')

-- The parts between the dots, the first of them begun with `part`.
unfoldable pub cut : List ℕ → List ℕ → List (List ℕ)
cut part [] = part ∷ []
cut part (c ∷ cs) =
    let next = part ∷ cut [] cs in
    let same = cut (append part c) cs in if c == b'.' then next else same
  where
    append : List ℕ → ℕ → List ℕ
    append [] x = x ∷ []
    append (y ∷ ys) x = y ∷ append ys x

abbrev pub dotted : String → List (List ℕ)
dotted s = cut [] (codes s)

-- A first character of one kind, and others of another.
abbrev pub starts_with : (ℕ → Bool) → (ℕ → Bool) → List ℕ → Bool
starts_with first rest [] = false
starts_with first rest (c ∷ cs) = first c && all rest cs

abbrev pub some_digits : List ℕ → Bool
some_digits cs = starts_with is_digit is_digit cs
