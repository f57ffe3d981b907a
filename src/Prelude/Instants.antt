-- ===== src/Prelude/Instants.antt =====
-- The order of two instants' texts, as SQLite compares them. `isoformat` leaves out a fraction of a second that is zero, and the
-- `Z` that follows sorts after the point of a fraction.
use Prim.Native.Nat.{ℕ, ◌/◌, ◌%◌}
use mathlib.Core.Bool.{Bool, not, ◌&&◌, ◌||◌}
use brain_inspired_agent.Prelude.Tests.{ltb, ◌==◌}

-- Of two fractions, in microseconds, the first text is smaller.
abbrev fraction_before : ℕ → ℕ → Bool
fraction_before x y = not (x == 0) && (y == 0 || ltb x y)

-- Instants are whole microseconds.
unfoldable pub text_before : ℕ → ℕ → Bool
text_before a b =
    ltb (a / 1000000) (b / 1000000)
    || (a / 1000000 == b / 1000000 && fraction_before (a % 1000000) (b % 1000000))
